-- ===== src/Usim/Twice.antt =====
-- An answer to an event that is not in progress, which the ioctl does not refuse.
use bifrost_module.Base.{
  ℕ, ◌≤◌, ◌≡◌, refl, ◌∙◌, Bool, true, false, Option, none, some, List, ◌==◌, bit_and, Bool-cases,
  Option-cases, inl, inr, arith, ltb, copy_in, eio,
}
use bifrost_module.Usim.{
  State, Event, Usim, with_event, complete_event, has_state, read_access, access_type, put_ref,
  lookup_event_w_ticket, data_size,
}
use bifrost_module.Usim.Ioctl.{ioc_put_event, put_at, take_data, taken_data, answer}
use bifrost_module.Usim.Refs.{
  IsValid, occurs, heap-with_event, list-with_event, heap-complete_event, list-complete_event,
}
use bifrost_module.Usim.Receive.{occurs-with_ticket}

abbrev refs : Option Event → ℕ
refs none = 0
refs (some e) = e.refcnt

-- The queue is that of s, and one reference to the event is left.
record IsLast (s : Usim) (a : ℕ) (s' : Usim) : Type 0 where
  same : s'.list ≡ s.list
  one : refs (s'.heap a) ≡ 1

IsLast-with_event :
    (f : Event → Event) (s s' : Usim) (a : ℕ)
    → ((e : Event) → (f e).refcnt ≡ e.refcnt)
    → IsLast s a s'
    → IsLast s a (with_event f s' a)
IsLast-with_event f s s' a keep l = record {
  same = list-with_event f s' a ∙ l.same;
  one = elim (Option-cases (s'.heap a)) [
    | inl gone ↦ ground (arith, gone, l.one)
    | inr (e, there) ↦ ground (arith, there, l.one, heap-with_event f s' a a, keep e)
  ];
}

take_data-IsLast :
    (s s' : Usim) (a : ℕ) (len : Option ℕ) (user : ℕ → Option (List ℕ))
    → IsLast s a s'
    → IsLast s a (take_data s' a len user).0
unfolding take_data
take_data-IsLast s s' a none user l = l
take_data-IsLast s s' a (some len) user l =
    let l' = IsLast-with_event (λ e. record e { len = len }) s s' a (λ e. refl) l in
    elim (Bool-cases (ltb data_size len)) [
      | inl big ↦ rw big l'
      | inr fits ↦ elim (Option-cases (user len)) [
        | inl fault ↦ rw (fits, fault) l'
        | inr (xs, read) ↦
            rw (fits, read)
              (IsLast-with_event (λ e. record e { data_area = copy_in xs 0 e.data_area }) s _ a
                (λ e. refl) l')
      ]
    ]

taken_data-IsLast :
    (s : Usim) (a : ℕ) (e : Event) (len : Option ℕ) (user : ℕ → Option (List ℕ))
    → refs (s.heap a) ≡ 1
    → IsLast s a (taken_data s a e len user).0
unfolding taken_data
taken_data-IsLast s a e len user one =
    elim (Bool-cases (bit_and (access_type e.type) read_access == 0)) [
      | inl write ↦ rw write (record { same = refl; one = one })
      | inr read ↦ rw read (take_data-IsLast s s a len user (record { same = refl; one = one }))
    ]

-- Completion drops the last reference.
complete_event-last :
    (s s' : Usim) (a status : ℕ)
    → IsLast s a s'
    → ((complete_event s' a status).heap a ≡ none) × ((complete_event s' a status).list ≡ s.list)
unfolding put_ref
complete_event-last s s' a status l = (
  elim (Option-cases (s'.heap a)) [
    | inl gone ↦ ground (arith, gone, l.one)
    | inr (e, there) ↦ ground (arith, there, l.one, heap-complete_event s' a status a)
  ],
  list-complete_event s' a status ∙ l.same,
)

answer-last :
    (s : Usim) (a : ℕ) (p : Usim × Bool)
    → IsLast s a p.0
    → ((answer p a).0.heap a ≡ none) × ((answer p a).0.list ≡ s.list)
unfolding answer
answer-last s a (s', true) l = complete_event-last s s' a 0 l
answer-last s a (s', false) l = complete_event-last s s' a eio l

-- In a valid state, an answer to an event of the queue that is not in progress, be it one that was
-- never taken or one that was answered before, frees the event while it stays in the queue, whatever
-- the copies from user space give.
pub ioc_put_event_not_taken :
    (s : Usim) (ticket a : ℕ) (len : Option ℕ) (user : ℕ → Option (List ℕ))
    → IsValid s
    → lookup_event_w_ticket ticket s ≡ some a
    → has_state State.in_progress (s.heap a) ≡ false
    → ((ioc_put_event (some ticket) len user s).0.heap a ≡ none)
      × (1 ≤ occurs a (ioc_put_event (some ticket) len user s).0.list)
unfolding ioc_put_event put_at lookup_event_w_ticket has_state
ioc_put_event_not_taken s ticket a len user v found idle =
    let here = occurs-with_ticket ticket s.heap s.list a found in
    let once = v.counted a (omega (arith, here, v.once a)) in
    elim (Option-cases (s.heap a)) [
      | inl gone ↦ ground (arith, gone, once)
      | inr (e, there) ↦
          let freed =
            answer-last s a _
              (taken_data-IsLast s a e len user (ground (arith, there, once, idle))) in
          rw (found, there, put_at) (freed.0, rw freed.1 here)
    ]
