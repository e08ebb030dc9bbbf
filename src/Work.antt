-- ===== src/Work.antt =====
-- The work queue of bifrost/bifrost_main.c, through which an interrupt creates its events: the
-- interrupt queues a work item, and the one thread of the queue delivers the events in turn.
pub mod Schedule
pub mod Delivered
pub mod Completed
mod Tests
use bifrost_module.Base.{ℕ, ◌+◌, Bool, true, false, List, [], ◌∷◌, ◌++◌}
use bifrost_module.Events.{Event, Handle, create_event}

-- `works` are the events of the items of `work_queue`, the oldest first; `delivered` counts the items
-- that are done.
pub record Queue : Type 0 where
  pub works : List Event
  pub handles : List Handle
  pub delivered : ℕ

-- What the kernel answers while an item is worked on: whether a copy for the handle at an address can
-- be allocated, and the time.
pub record Answer : Type 0 where
  pub memory : ℕ → Bool
  pub now : ℕ

-- `memory` says whether the pool gives an item; if not, the event is dropped.
unfoldable pub create_event_in_atomic : (memory : Bool) → Event → Queue → Queue
create_event_in_atomic true e s = record s { works = s.works ++ e ∷ [] }
create_event_in_atomic false e s = s

module _ (answers : ℕ → Answer) where
  -- The work function of an item that is taken off the queue; `answers k` is for the k-th item.
  unfoldable pub work_create_event : Event → List Event → Queue → Queue
  work_create_event e rest s = record {
    works = rest;
    handles = (create_event (answers s.delivered).memory (answers s.delivered).now s.handles e).0;
    delivered = s.delivered + 1;
  }

  -- The thread takes the oldest item, if there is one.
  unfoldable pub work : Queue → Queue
  unfolding work_create_event
  work s = elim s.works [ [] ↦ s | e ∷ rest ↦ work_create_event e rest s ]

  -- `flush_workqueue`: the items of the list are worked on, one after the other.
  pub flush : List Event → Queue → Queue
  unfolding work_create_event
  flush [] s = s
  flush (e ∷ rest) s = flush rest (work_create_event e rest s)

  unfoldable pub flush_workqueue : Queue → Queue
  unfolding flush
  flush_workqueue s = flush s.works s
