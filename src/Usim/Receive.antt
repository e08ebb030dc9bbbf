-- ===== src/Usim/Receive.antt =====
-- What the receiver gets, what closing the device does, and what a second answer does.
use bifrost_module.Base.{
  ℕ, ◌≤◌, ◌≡◌, ◌≢◌, ◌↔◌, refl, true, false, Option, none, some, List, [], ◌∷◌, ◌==◌, if◌then◌else◌,
  leb, Bool-cases, Option-cases, inl, inr, arith, eio, ==_iff,
}
use bifrost_module.Usim.{
  State, Event, Usim, put_ref, complete_event, has_state, first_ready, get_1st_ready_event,
  with_ticket, has_ticket, complete_orphans, i2c_usim_release, i2c_usim_poll, taken,
}
use bifrost_module.Usim.Refs.{
  Counted, IsValid, occurs, on_event, heap-complete_event, Counted-complete_event,
}
use bifrost_module.Usim.Steps.{First, first_ready-First, heap-get, start}

-- An event that is taken is the first ready one in the order of the queue, and it alone changes: it is
-- in progress, with one reference more.
pub get_1st_ready_event-First :
    (s : Usim) (a : ℕ)
    → (get_1st_ready_event s).1 ≡ some a
    → First s.heap s.list (some a)
      × ((b : ℕ)
          → (get_1st_ready_event s).0.heap b
            ≡ (if a == b then on_event start (s.heap b) else s.heap b))
unfolding get_1st_ready_event taken
get_1st_ready_event-First s a found = elim (Option-cases (first_ready s.heap s.list)) [
  | inl nobody ↦ ground (arith, nobody, found)
  | inr (c, hit) ↦
      let same : c ≡ a = ground (arith, hit, found) in
      (
        rw same at (rw hit at (first_ready-First s.heap s.list)),
        λ b. ground (arith, hit, same, heap-get s c b),
      )
]

-- `poll` reports the device readable exactly when an event can be taken.
pub poll-get_1st_ready_event :
    (s : Usim) → (i2c_usim_poll s ≢ 0) ↔ ((get_1st_ready_event s).1 ≢ none)
unfolding get_1st_ready_event taken i2c_usim_poll
poll-get_1st_ready_event s = elim (Option-cases (first_ready s.heap s.list)) [
  | inl nobody ↦ ground (arith, nobody)
  | inr (a, hit) ↦ ground (arith, hit)
]

-- What closing the device does to an event: one in progress fails with -EIO, and the receiver's
-- reference is dropped.
abbrev pub orphaned : Option Event → Option Event
orphaned none = none
orphaned (some e) = elim e.state [
  | State.in_progress ↦ some (record e { refcnt = 1; status = eio; state = State.done })
  | _ ↦ some e
]

complete_orphan :
    (s : Usim) (a b : ℕ)
    → Counted (s.heap b)
    → has_state State.in_progress (s.heap a) ≡ true
    → (complete_event s a eio).heap b ≡ (if a == b then orphaned (s.heap b) else s.heap b)
unfolding put_ref has_state
complete_orphan s a b c busy = elim (Bool-cases (a == b)) [
  | inl same ↦ ground (arith, heap-complete_event s a eio b, (==_iff a b).0 same, busy, c)
  | inr other ↦ rw (heap-complete_event s a eio b, other) refl
]

orphaned-orphaned : (o : Option Event) → orphaned (orphaned o) ≡ orphaned o
orphaned-orphaned o = ground arith

orphaned_idle : (o : Option Event) → has_state State.in_progress o ≡ false → orphaned o ≡ o
unfolding has_state
orphaned_idle o idle = ground (arith, idle)

heap-complete_orphans :
    (l : List ℕ) (s : Usim) (b : ℕ)
    → Counted (s.heap b)
    → (complete_orphans l s).heap b ≡ (if leb 1 (occurs b l) then orphaned (s.heap b) else s.heap b)
unfolding complete_orphans
heap-complete_orphans [] s b c = refl
heap-complete_orphans (a ∷ rest) s b c =
    elim (Bool-cases (has_state State.in_progress (s.heap a))) [
      | inl busy ↦ ground (
        arith,
        busy,
        heap-complete_orphans rest (complete_event s a eio) b
            (Counted-complete_event s a eio b busy c),
        complete_orphan s a b c busy,
        orphaned-orphaned (s.heap b),
      )
      | inr idle ↦
          ground (
            arith,
            idle,
            heap-complete_orphans rest s b c,
            orphaned_idle (s.heap a) idle,
            ==_iff a b,
          )
    ]

-- Closing the device in a valid state frees no event of the queue and leaves none of them in
-- progress: those in progress are done with -EIO and with the sender's reference only, and the others
-- are as they were.
pub heap-i2c_usim_release :
    (s : Usim) (b : ℕ)
    → IsValid s
    → occurs b s.list ≡ 1
    → ((i2c_usim_release s).heap b ≡ orphaned (s.heap b))
      × (has_state State.in_progress ((i2c_usim_release s).heap b) ≡ false)
      × ((i2c_usim_release s).heap b ≢ none)
unfolding i2c_usim_release has_state
heap-i2c_usim_release s b v i =
    ground (arith, heap-complete_orphans s.list s b (v.counted b i), v.counted b i)

-- An event that is found by its ticket is in the queue.
pub occurs-with_ticket :
    (ticket : ℕ) (heap : ℕ → Option Event) (l : List ℕ) (a : ℕ)
    → with_ticket ticket heap l ≡ some a
    → 1 ≤ occurs a l
unfolding with_ticket
occurs-with_ticket ticket heap [] a found = ground (arith, found)
occurs-with_ticket ticket heap (x ∷ xs) a found = elim (Bool-cases (has_ticket ticket (heap x))) [
  | inl hit ↦ ground (arith, hit, found)
  | inr miss ↦ ground (arith, miss, found, occurs-with_ticket ticket heap xs a)
]
