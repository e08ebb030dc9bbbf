-- ===== src/Work/Schedule.antt =====
-- However interrupts and the thread of the work queue of bifrost/bifrost_main.c take turns, the events
-- arrive as if each had been delivered when it was raised.
use mathlib.Core.List.{append_assoc, append-nil}
use bifrost_module.Base.{ℕ, ◌+◌, Bool, true, false, List, [], ◌∷◌, ◌++◌, ◌≡◌, refl, sym, ◌∙◌, ap}
use bifrost_module.Events.{Event, Handle, create_event}
use bifrost_module.Work.{
  Queue, Answer, create_event_in_atomic, work_create_event, work, flush, flush_workqueue,
}

-- A turn: an interrupt raises an event, for which there is an item or not, or the thread works.
pub data Turn : Type 0 where
  raises : (memory : Bool) (e : Event) → Turn
  thread : Turn

-- The events for which there was an item.
abbrev pub raised : List Turn → List Event
raised [] = []
raised (raises true e ∷ ts) = e ∷ raised ts
raised (raises false e ∷ ts) = raised ts
raised (thread ∷ ts) = raised ts

module _ (answers : ℕ → Answer) where
  abbrev pub turn : Queue → Turn → Queue
  turn s (raises memory e) = create_event_in_atomic memory e s
  turn s thread = work answers s

  abbrev pub turns : Queue → List Turn → Queue
  turns s [] = s
  turns s (t ∷ ts) = turns (turn s t) ts

  -- The handles when the events are delivered at once, the first with the answers of `k`.
  pub at_once : (k : ℕ) → List Handle → List Event → List Handle
  at_once k hs [] = hs
  at_once k hs (e ∷ es) =
      at_once (k + 1) (create_event (answers k).memory (answers k).now hs e).0 es

  flush-at_once :
      (es : List Event) (s : Queue)
      → (flush answers es s).handles ≡ at_once s.delivered s.handles es
  unfolding flush work_create_event at_once
  flush-at_once [] s = refl
  flush-at_once (e ∷ es) s = flush-at_once es (work_create_event answers e es s)

  pub flush-works : (es : List Event) (s : Queue) → s.works ≡ es → (flush answers es s).works ≡ []
  unfolding flush work_create_event
  flush-works [] s e = e
  flush-works (x ∷ es) s e = flush-works es (work_create_event answers x es s) refl

  -- One turn of the thread delivers what stands first.
  work-at_once :
      (s : Queue) (es : List Event)
      → at_once (work answers s).delivered (work answers s).handles ((work answers s).works ++ es)
        ≡ at_once s.delivered s.handles (s.works ++ es)
  unfolding work work_create_event at_once
  work-at_once s es =
      elim s.works
        as (λ w.
          at_once (work answers (record s { works = w })).delivered
            (work answers (record s { works = w })).handles
            ((work answers (record s { works = w })).works ++ es)
          ≡ at_once s.delivered s.handles (w ++ es)) [ [] ↦ refl | e ∷ rest ↦ refl ]

  -- After any turns of interrupts and of the thread, flushing the queue leaves it empty, and leaves the
  -- handles as if the events that waited at first and then those that were raised, if there was an
  -- item for them, had been delivered at once, in this order and with the same answers of the kernel.
  pub flush_workqueue-at_once :
      (s : Queue) (ts : List Turn)
      → ((flush_workqueue answers (turns s ts)).works ≡ [])
        × ((flush_workqueue answers (turns s ts)).handles
            ≡ at_once s.delivered s.handles (s.works ++ raised ts))
  unfolding flush_workqueue create_event_in_atomic
  flush_workqueue-at_once s ts = (
    flush-works (turns s ts).works (turns s ts) refl,
    flush-at_once (turns s ts).works (turns s ts) ∙ turns-at_once s ts,
  )
    where
      turns-at_once :
          (s : Queue) (ts : List Turn)
          → at_once (turns s ts).delivered (turns s ts).handles (turns s ts).works
            ≡ at_once s.delivered s.handles (s.works ++ raised ts)
      turns-at_once s [] = ap (at_once s.delivered s.handles) (sym (append-nil s.works))
      turns-at_once s (raises true e ∷ ts) =
          turns-at_once (record s { works = s.works ++ e ∷ [] }) ts
          ∙ ap (at_once s.delivered s.handles) (append_assoc s.works (e ∷ []) (raised ts))
      turns-at_once s (raises false e ∷ ts) = turns-at_once s ts
      turns-at_once s (thread ∷ ts) = turns-at_once (work answers s) ts ∙ work-at_once s (raised ts)
