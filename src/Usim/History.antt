-- ===== src/Usim/History.antt =====
-- Histories of the simulator: the senders, and a receiver that puts back only what it has taken.
use mathlib.Core.Path.{subst}
use bifrost_module.Base.{
  ℕ, ◌≡◌, refl, ◌∙◌, Bool, true, false, Option, none, some, List, [], ◌==◌, bit_and, Bool-cases,
  Option-cases, inl, inr, arith, Result, eio, ltb, copy_in,
}
use bifrost_module.Usim.{
  State, Event, Usim, with_event, put_event, has_state, read_access, access_type,
  wait_event_completion, first_ready, get_1st_ready_event, lookup_event_w_ticket, i2c_usim_release,
  i2c_usim_open, taken, data_size,
}
use bifrost_module.Usim.Ioctl.{
  ioc_get_event, ioc_put_event, given_event, give, put_at, take_data, taken_data, answer,
}
use bifrost_module.Usim.Refs.{
  Counted, IsValid, occurs, heap-with_event, list-with_event, IsValid-of_heap,
  complete_event-IsValid,
}
use bifrost_module.Usim.Steps.{
  First, first_ready-First, First-ready, sent, sent-IsValid, leave-IsValid, get-IsValid,
  release-IsValid, heap-get,
}

-- The event with the ticket, if there is one, has been taken and not been put back.
abbrev pub IsTaken : ℕ → Usim → Type 0
IsTaken ticket s = elim (lookup_event_w_ticket ticket s) [
  | none ↦ Unit
  | some a ↦ has_state State.in_progress (s.heap a) ≡ true
]

-- A sender posts an event at an address that is not in use; a sender stops waiting, for whatever
-- reason, and drops its reference; the receiver opens the device, takes an event, puts back an event
-- that it has taken, and closes the device, with any outcome of the copies from and to user space.
pub data Step (s : Usim) : Usim → Type 0 where
  sends :
      (a type bus addr len : ℕ) (copy : (ℕ → ℕ) → ℕ → ℕ)
      → s.heap a ≡ none
      → Step s (sent s a type bus addr len copy)
  leaves :
      (a : ℕ) (v : Result ℕ)
      → occurs a s.list ≡ 1
      → Step s (put_event (wait_event_completion s a v).0 a)
  opens : Step s (i2c_usim_open s).0
  gets : (copied : Bool) → Step s (ioc_get_event copied s).0
  puts :
      (ticket : ℕ) (len : Option ℕ) (user : ℕ → Option (List ℕ))
      → IsTaken ticket s
      → Step s (ioc_put_event (some ticket) len user s).0
  closes : Step s (i2c_usim_release s)

abbrev pub empty : Usim
empty = record { heap = λ _. none; list = []; tickets = 0; users = 0 }

-- The states that can be reached from the empty queue.
pub data IsReachable : Usim → Type 0 where
  begins : IsReachable empty
  goes : {s s' : Usim} → IsReachable s → Step s s' → IsReachable s'

open-IsValid : (s : Usim) → IsValid s → IsValid (i2c_usim_open s).0
unfolding i2c_usim_open
open-IsValid s v = elim (Bool-cases (s.users == 1)) [
  | inl hit ↦ rw hit v
  | inr miss ↦ rw miss (IsValid-of_heap v refl (λ b c. c))
]

give-IsValid :
    (copied : Bool) (s : Usim) (a : ℕ)
    → has_state State.in_progress (s.heap a) ≡ true
    → IsValid s
    → IsValid (give copied s a).0
unfolding give
give-IsValid false s a busy v = complete_event-IsValid s a eio busy v
give-IsValid true s a busy v = elim (Option-cases (s.heap a)) [
  | inl gone ↦ rw (gone, give) v
  | inr (e, there) ↦ rw (there, give) v
]

taken-in_progress :
    (s : Usim) (a : ℕ)
    → has_state State.ready (s.heap a) ≡ true
    → has_state State.in_progress ((taken s (some a)).0.heap a) ≡ true
unfolding taken has_state
taken-in_progress s a waits = ground (arith, heap-get s a a, waits)

ioc_get_event-IsValid : (copied : Bool) (s : Usim) → IsValid s → IsValid (ioc_get_event copied s).0
unfolding ioc_get_event given_event get_1st_ready_event
ioc_get_event-IsValid copied s v =
    elim (first_ready s.heap s.list)
        as (λ r.
          First s.heap s.list r
          → IsValid (taken s r).0
          → IsValid (given_event copied (taken s r)).0) [
            | none ↦ λ f w. v
            | some a ↦ λ f w. give-IsValid copied _ a (taken-in_progress s a (First-ready f)) w
          ]
      (first_ready-First s.heap s.list) (get-IsValid s v)

-- What is stored to an event that is in progress while it is put back.
record IsKept (s : Usim) (a : ℕ) (s' : Usim) : Type 0 where
  same : s'.list ≡ s.list
  counts : (b : ℕ) → Counted (s.heap b) → Counted (s'.heap b)
  busy : has_state State.in_progress (s'.heap a) ≡ true

abbrev of_len : ℕ → Event → Event
of_len len e = record e { len = len }

abbrev of_data : List ℕ → Event → Event
of_data xs e = record e { data_area = copy_in xs 0 e.data_area }

of_len-IsKept :
    (s : Usim) (a len : ℕ)
    → has_state State.in_progress (s.heap a) ≡ true
    → IsKept s a (with_event (of_len len) s a)
unfolding has_state
of_len-IsKept s a len busy = record {
  same = list-with_event (of_len len) s a;
  counts = λ b c. ground (arith, heap-with_event (of_len len) s a b, c);
  busy = ground (arith, heap-with_event (of_len len) s a a, busy);
}

of_data-IsKept :
    (s : Usim) (a : ℕ) (xs : List ℕ)
    → has_state State.in_progress (s.heap a) ≡ true
    → IsKept s a (with_event (of_data xs) s a)
unfolding has_state
of_data-IsKept s a xs busy = record {
  same = list-with_event (of_data xs) s a;
  counts = λ b c. ground (arith, heap-with_event (of_data xs) s a b, c);
  busy = ground (arith, heap-with_event (of_data xs) s a a, busy);
}

IsKept-trans : {s s' s'' : Usim} {a : ℕ} → IsKept s a s' → IsKept s' a s'' → IsKept s a s''
IsKept-trans k l = record {
  same = l.same ∙ k.same;
  counts = λ b c. l.counts b (k.counts b c);
  busy = l.busy;
}

IsKept-refl : {s : Usim} {a : ℕ} → has_state State.in_progress (s.heap a) ≡ true → IsKept s a s
IsKept-refl busy = record { same = refl; counts = λ b c. c; busy = busy }

take_data-IsKept :
    (s : Usim) (a : ℕ) (len : Option ℕ) (user : ℕ → Option (List ℕ))
    → has_state State.in_progress (s.heap a) ≡ true
    → IsKept s a (take_data s a len user).0
unfolding take_data
take_data-IsKept s a none user busy = IsKept-refl busy
take_data-IsKept s a (some len) user busy = elim (Bool-cases (ltb data_size len)) [
  | inl big ↦ rw big (of_len-IsKept s a len busy)
  | inr fits ↦ elim (Option-cases (user len)) [
    | inl fault ↦ rw (fits, fault) (of_len-IsKept s a len busy)
    | inr (xs, read) ↦
        rw (fits, read)
          (IsKept-trans (of_len-IsKept s a len busy)
            (of_data-IsKept _ a xs (of_len-IsKept s a len busy).busy))
  ]
]

taken_data-IsKept :
    (s : Usim) (a : ℕ) (e : Event) (len : Option ℕ) (user : ℕ → Option (List ℕ))
    → has_state State.in_progress (s.heap a) ≡ true
    → IsKept s a (taken_data s a e len user).0
unfolding taken_data
taken_data-IsKept s a e len user busy =
    elim (Bool-cases (bit_and (access_type e.type) read_access == 0)) [
      | inl write ↦ rw write (IsKept-refl busy)
      | inr read ↦ rw read (take_data-IsKept s a len user busy)
    ]

answer-IsValid :
    (s : Usim) (a : ℕ) (p : Usim × Bool) → IsKept s a p.0 → IsValid s → IsValid (answer p a).0
unfolding answer
answer-IsValid s a (s', true) k v =
    complete_event-IsValid s' a 0 k.busy (IsValid-of_heap v k.same k.counts)
answer-IsValid s a (s', false) k v =
    complete_event-IsValid s' a eio k.busy (IsValid-of_heap v k.same k.counts)

put_at-IsValid :
    (s : Usim) (a : ℕ) (len : Option ℕ) (user : ℕ → Option (List ℕ))
    → has_state State.in_progress (s.heap a) ≡ true
    → IsValid s
    → IsValid (put_at (some a) s len user).0
unfolding put_at
put_at-IsValid s a len user busy v = elim (Option-cases (s.heap a)) [
  | inl gone ↦ rw (gone, put_at) v
  | inr (e, there) ↦
      rw (there, put_at) (answer-IsValid s a _ (taken_data-IsKept s a e len user busy) v)
]

ioc_put_event-IsValid :
    (ticket : ℕ) (len : Option ℕ) (user : ℕ → Option (List ℕ)) (s : Usim)
    → IsTaken ticket s
    → IsValid s
    → IsValid (ioc_put_event (some ticket) len user s).0
unfolding ioc_put_event put_at
ioc_put_event-IsValid ticket len user s t v = elim (Option-cases (lookup_event_w_ticket ticket s)) [
  | inl nobody ↦ rw nobody v
  | inr (a, found) ↦ rw found (
      put_at-IsValid s a len user
        (subst
          (λ o. elim o [ none ↦ Unit | some b ↦ has_state State.in_progress (s.heap b) ≡ true ])
          found t)
        v)
]

Step-IsValid : {s s' : Usim} → Step s s' → IsValid s → IsValid s'
Step-IsValid {s} (sends a type bus addr len copy free) v =
    sent-IsValid s a type bus addr len copy v free
Step-IsValid {s} (leaves a r mine) v = leave-IsValid s a r v mine
Step-IsValid {s} opens v = open-IsValid s v
Step-IsValid {s} (gets copied) v = ioc_get_event-IsValid copied s v
Step-IsValid {s} (puts ticket len user t) v = ioc_put_event-IsValid ticket len user s t v
Step-IsValid {s} closes v = release-IsValid s v

-- In every state that is reached by posting events, leaving the queue, and opening, taking, putting
-- back what was taken, and closing, in any order and with any outcome of the copies, each event of
-- the queue is in it once and is live, and its reference count is 2 while it is in progress and 1
-- otherwise.
pub IsReachable-IsValid : {s : Usim} → IsReachable s → IsValid s
IsReachable-IsValid begins = record {
  once = λ a. omega arith;
  counted = λ a i. absurd (omega (arith, i));
}
IsReachable-IsValid (goes r t) = Step-IsValid t (IsReachable-IsValid r)
