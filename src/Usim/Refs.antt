-- ===== src/Usim/Refs.antt =====
-- The reference counts of the events in the queue: who holds an event, at every step.
use bifrost_module.Base.{
  ==_iff, ℕ, ◌+◌, ◌≤◌, ◌≡◌, sym, ◌∙◌, ap, true, Option, none, some, List, [], ◌∷◌, ◌==◌,
  if◌then◌else◌, Bool-cases, Option-cases, inl, inr, arith,
}
use bifrost_module.Usim.{
  State, Event, Usim, with_event, put_event, put_ref, complete_event, has_state,
}

-- An event is held by its sender, and by the receiver while it is in progress.
abbrev pub holders : State → ℕ
holders State.ready = 1
holders State.in_progress = 2
holders State.done = 1

abbrev pub Counted : Option Event → Type 0
Counted none = ⊥
Counted (some e) = e.refcnt ≡ holders e.state

-- How often an address is in the queue.
abbrev pub occurs : ℕ → List ℕ → ℕ
occurs a [] = 0
occurs a (x ∷ xs) = (if x == a then 1 else 0) + occurs a xs

-- Each event is in the queue once, and those that are there are live, and counted right.
pub record IsValid (s : Usim) : Type 0 where
  pub once : (a : ℕ) → occurs a s.list ≤ 1
  pub counted : (a : ℕ) → occurs a s.list ≡ 1 → Counted (s.heap a)

abbrev pub on_event : (Event → Event) → Option Event → Option Event
on_event f none = none
on_event f (some e) = some (f e)

abbrev pub off_event : Option Event → Option Event
off_event none = none
off_event (some e) = put_ref e

pub heap-with_event :
    (f : Event → Event) (s : Usim) (a b : ℕ)
    → (with_event f s a).heap b ≡ (if a == b then on_event f (s.heap b) else s.heap b)
unfolding with_event
heap-with_event f s a b = elim (Option-cases (s.heap a)) [
  | inl gone ↦ ground (arith, gone)
  | inr (e, there) ↦ ground (arith, there)
]

pub list-with_event : (f : Event → Event) (s : Usim) (a : ℕ) → (with_event f s a).list ≡ s.list
unfolding with_event
list-with_event f s a = elim (Option-cases (s.heap a)) [
  | inl gone ↦ ground (arith, gone)
  | inr (e, there) ↦ ground (arith, there)
]

pub heap-put_event :
    (s : Usim) (a b : ℕ)
    → (put_event s a).heap b ≡ (if a == b then off_event (s.heap b) else s.heap b)
unfolding put_event
heap-put_event s a b = elim (Option-cases (s.heap a)) [
  | inl gone ↦ ground (arith, gone)
  | inr (e, there) ↦ ground (arith, there)
]

pub list-put_event : (s : Usim) (a : ℕ) → (put_event s a).list ≡ s.list
unfolding put_event
list-put_event s a = elim (Option-cases (s.heap a)) [
  | inl gone ↦ ground (arith, gone)
  | inr (e, there) ↦ ground (arith, there)
]

pub list-complete_event : (s : Usim) (a status : ℕ) → (complete_event s a status).list ≡ s.list
unfolding complete_event
list-complete_event s a status =
    list-put_event (with_event (λ e. record e { status = status; state = State.done }) s a) a
    ∙ list-with_event (λ e. record e { status = status; state = State.done }) s a

-- A completed event has lost the reference of the receiver.
abbrev pub ended : ℕ → Event → Event
ended status e = record e { status = status; state = State.done }

pub heap-complete_event :
    (s : Usim) (a status b : ℕ)
    → (complete_event s a status).heap b
      ≡ (if a == b then off_event (on_event (ended status) (s.heap b)) else s.heap b)
unfolding complete_event
heap-complete_event s a status b = ground (
  arith,
  heap-put_event (with_event (ended status) s a) a b,
  heap-with_event (ended status) s a b,
)

-- What keeps every count keeps the invariant.
pub IsValid-of_heap :
    {s s' : Usim}
    → IsValid s
    → s'.list ≡ s.list
    → ((b : ℕ) → Counted (s.heap b) → Counted (s'.heap b))
    → IsValid s'
IsValid-of_heap {s} {s'} v same keep = record {
  once = λ a. rw same (v.once a);
  counted = λ a i. keep a (v.counted a (ap (occurs a) (sym same) ∙ i));
}

pub Counted-complete_event :
    (s : Usim) (a status b : ℕ)
    → has_state State.in_progress (s.heap a) ≡ true
    → Counted (s.heap b)
    → Counted ((complete_event s a status).heap b)
unfolding put_ref has_state
Counted-complete_event s a status b busy c = elim (Bool-cases (a == b)) [
  | inl same ↦ ground (arith, heap-complete_event s a status b, (==_iff a b).0 same, busy, c)
  | inr other ↦ rw (heap-complete_event s a status b, other) c
]

pub complete_event-IsValid :
    (s : Usim) (a status : ℕ)
    → has_state State.in_progress (s.heap a) ≡ true
    → IsValid s
    → IsValid (complete_event s a status)
complete_event-IsValid s a status busy v =
    IsValid-of_heap v (list-complete_event s a status)
      (λ b. Counted-complete_event s a status b busy)
