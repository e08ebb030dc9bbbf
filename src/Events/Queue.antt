-- ===== src/Events/Queue.antt =====
-- The event queue of a handle is a bounded FIFO.
use mathlib.Core.List.{append_assoc, append-nil}
use bifrost_module.Base.{
  ℕ, ◌≤◌, ◌≡◌, sym, ap, ◌∙◌, ◌≢◌, ◌↔◌, Option, none, some, List, [], ◌∷◌, ◌++◌, length,
  length-append, Result, ok, err, enospc, arith,
}
use bifrost_module.Events.{
  Event, Handle, event_buffer_size, poll, poll_readable, dequeue_event, enqueue_event,
}

-- The counter is the length of the queue, which never exceeds the buffer size.
pub record IsValid (h : Handle) : Type 0 where
  pub counted : h.event_list_count ≡ length h.event_list
  pub bounded : length h.event_list ≤ event_buffer_size

pub enqueue_event-IsValid : {h : Handle} (e : Event) → IsValid h → IsValid (enqueue_event h e).0
unfolding enqueue_event
enqueue_event-IsValid {h} e v = ground (arith, length-append h.event_list (e ∷ []))

pub dequeue_event-IsValid : {h : Handle} → IsValid h → IsValid (dequeue_event h).0
unfolding dequeue_event
dequeue_event-IsValid {h} v = ground arith

-- What a user of the handle and the driver do with the queue.
pub data Use : Type 0 where
  put : Event → Use
  get : Use

-- The events that `enqueue_event` took, those that `dequeue_event` gave, and the handle at the end.
pub record Log : Type 0 where
  pub taken : List Event
  pub given : List Event
  pub handle : Handle

-- One event if the call succeeded.
abbrev pub if_taken : Event → Result ℕ → List Event
if_taken e (ok r) = e ∷ []
if_taken e (err c) = []

abbrev pub if_given : Option Event → List Event
if_given none = []
if_given (some e) = e ∷ []

abbrev pub run : Handle → List Use → Log
run h [] = record { taken = []; given = []; handle = h }
run h (put e ∷ us) =
    let (h', r) = enqueue_event h e in
    let l = run h' us in record l { taken = if_taken e r ++ l.taken }
run h (get ∷ us) =
    let (h', o) = dequeue_event h in let l = run h' us in record l { given = if_given o ++ l.given }

event_list-enqueue :
    (h : Handle) (e : Event)
    → let (h', r) = enqueue_event h e in h'.event_list ≡ h.event_list ++ if_taken e r
unfolding enqueue_event
event_list-enqueue h e = ground (arith, append-nil h.event_list)

event_list-dequeue :
    (h : Handle) → let (h', o) = dequeue_event h in if_given o ++ h'.event_list ≡ h.event_list
unfolding dequeue_event
event_list-dequeue h = ground arith

-- First in, first out, for any sequence of calls on a valid handle: the events given out, in order, followed by those
-- left in the queue, are those in the queue at first followed by those that were taken; and the
-- queue keeps its invariant.
pub run-fifo :
    (h : Handle) (us : List Use)
    → IsValid h
    → let l = run h us in
      IsValid l.handle × (l.given ++ l.handle.event_list ≡ h.event_list ++ l.taken)
run-fifo h [] v = (v, sym (append-nil h.event_list))
run-fifo h (put e ∷ us) v =
    let (h', r) = enqueue_event h e in
    let (w, ih) = run-fifo h' us (enqueue_event-IsValid e v) in
    (
      w,
      ih
          ∙ ap (λ z. z ++ (run h' us).taken) (event_list-enqueue h e)
          ∙ append_assoc h.event_list (if_taken e r) (run h' us).taken,
    )
run-fifo h (get ∷ us) v =
    let (h', o) = dequeue_event h in
    let (w, ih) = run-fifo h' us (dequeue_event-IsValid v) in
    (
      w,
      append_assoc (if_given o) (run h' us).given (run h' us).handle.event_list
          ∙ ap (◌++◌ (if_given o)) ih
          ∙ sym (append_assoc (if_given o) h'.event_list (run h' us).taken)
          ∙ ap (λ z. z ++ (run h' us).taken) (event_list-dequeue h),
    )

-- A valid handle refuses an event, with -ENOSPC and no change, exactly when 20 events wait.
pub enqueue_event_full :
    (h : Handle) (e : Event)
    → IsValid h
    → (enqueue_event h e ≡ (h, err enospc)) ↔ (length h.event_list ≡ event_buffer_size)
unfolding enqueue_event
enqueue_event_full h e v = (λ q. ground arith, λ full. ground arith)

-- `poll` reports a handle readable exactly when the next `dequeue_event` gives an event.
pub poll-dequeue_event : (h : Handle) → (poll h ≡ poll_readable) ↔ ((dequeue_event h).1 ≢ none)
unfolding poll dequeue_event
poll-dequeue_event h = (λ p q. ground arith, λ ne. ground arith)
