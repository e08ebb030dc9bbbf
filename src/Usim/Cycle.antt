-- ===== src/Usim/Cycle.antt =====
-- A transfer and its answer.
use bifrost_module.Base.{
  ℕ, ◌+◌, ◌%◌, ◌^◌, ◌≤◌, ◌≡◌, refl, ◌∙◌, true, false, none, some, List, [], ◌∷◌, ◌==◌, length,
  bit_and, arith, ltb, copy_in, copy_out, copy_out-copy_in, copy_in-before, update, Result, ok,
}
use bifrost_module.Usim.{
  State, Event, Usim, with_event, has_state, read_access, access_type, put_ref, put_event,
  event_type, lookup_event_w_ticket, data_size, first_ready, with_ticket, has_ticket,
  get_1st_ready_event, taken, wait_event_completion, remove,
}
use bifrost_module.Usim.Ioctl.{
  ioc_get_event, given_event, give, ioc_put_event, put_at, take_data, taken_data, answer,
}
use bifrost_module.Usim.Transfer.{
  usim_smb_read, Size, end_read, complete, read_buf, store_read, smb,
}
use bifrost_module.Usim.Refs.{
  heap-with_event, list-with_event, heap-complete_event, list-complete_event,
}
use bifrost_module.Usim.Steps.{
  sent, heap-sent, list-sent, heap-get, start, begun, one_more, new_event,
}

-- One event is in the queue.
record Alone (s : Usim) (a : ℕ) (e : Event) : Type 0 where
  queue : s.list ≡ a ∷ []
  event : s.heap a ≡ some e

first_ready-Alone :
    {s : Usim} {a : ℕ} {e : Event}
    → Alone s a e
    → e.state ≡ State.ready
    → first_ready s.heap s.list ≡ some a
unfolding first_ready has_state
first_ready-Alone {s} l waits = rw (l.queue, l.event, waits) refl

get-Alone :
    (s : Usim) (a : ℕ) (e : Event)
    → Alone s a e
    → e.state ≡ State.ready
    → Alone (ioc_get_event true s).0 a (start e)
unfolding ioc_get_event given_event give get_1st_ready_event taken
get-Alone s a e l waits = record {
  queue = ground (
    arith,
    first_ready-Alone l waits,
    list-with_event one_more (with_event begun s a) a,
    list-with_event begun s a,
    l.queue,
    heap-get s a a,
    l.event,
  );
  event = ground (arith, first_ready-Alone l waits, heap-get s a a, l.event);
}

lookup-Alone :
    {s : Usim} {a : ℕ} {e : Event} → Alone s a e → lookup_event_w_ticket e.ticket s ≡ some a
unfolding lookup_event_w_ticket with_ticket has_ticket
lookup-Alone {s} {a} {e} l = ground (arith, l.queue, l.event)

-- An event that the receiver has answered with bytes.
abbrev answered : List ℕ → Event → Event
answered xs e = record e {
  refcnt = 1;
  status = 0;
  state = State.done;
  len = length xs;
  data_area = copy_in xs 0 e.data_area;
}

put-Alone :
    (s : Usim) (a : ℕ) (e : Event) (xs : List ℕ)
    → Alone s a e
    → e.refcnt ≡ 2
    → (bit_and (access_type e.type) read_access == 0) ≡ false
    → length xs ≤ 512
    → Alone (ioc_put_event (some e.ticket) (some (length xs)) (λ n. some xs) s).0 a (answered xs e)
unfolding ioc_put_event put_at taken_data take_data answer put_ref
put-Alone s a e xs l two reads short =
    let f = (λ (e : Event). record e { len = length xs }) in
    let g = (λ (e : Event). record e { data_area = copy_in xs 0 e.data_area }) in
    let s' = with_event g (with_event f s a) a in
    let fits : ltb data_size (length xs) ≡ false = ground (arith, short) in
    record {
      queue =
          rw (lookup-Alone l, put_at, l.event, reads, fits)
            (list-complete_event s' a 0
              ∙ list-with_event g (with_event f s a) a
              ∙ list-with_event f s a
              ∙ l.queue);
      event =
          rw (lookup-Alone l, put_at, l.event, reads, fits)
            (ground (
              arith,
              heap-complete_event s' a 0 a,
              heap-with_event g (with_event f s a) a a,
              heap-with_event f s a a,
              l.event,
              two,
            ));
    }

-- A receiver that takes the event and answers it with bytes.
pub serve : (ticket : ℕ) → List ℕ → Usim → Usim × Result ℕ
serve ticket xs s = (
  (ioc_put_event (some ticket) (some (length xs)) (λ n. some xs) (ioc_get_event true s).0).0,
  ok 0,
)

sent-Alone :
    (s : Usim) (a type bus addr len : ℕ) (copy : (ℕ → ℕ) → ℕ → ℕ)
    → s.list ≡ []
    → Alone
        (sent s a type bus addr len copy)
        a
        (new_event ((s.tickets + 1) % 2 ^ 32) type bus addr len (copy (λ _. 0)))
sent-Alone s a type bus addr len copy empty = record {
  queue = ground (arith, list-sent s a type bus addr len copy, empty);
  event = ground (arith, heap-sent s a type bus addr len copy a);
}

served-Alone :
    (s : Usim) (a type bus addr len : ℕ) (copy : (ℕ → ℕ) → ℕ → ℕ) (xs : List ℕ)
    → s.list ≡ []
    → (bit_and (access_type type) read_access == 0) ≡ false
    → length xs ≤ 512
    → Alone (serve ((s.tickets + 1) % 2 ^ 32) xs (sent s a type bus addr len copy)).0 a (
        answered xs
          (start (new_event ((s.tickets + 1) % 2 ^ 32) type bus addr len (copy (λ _. 0)))))
unfolding serve
served-Alone s a type bus addr len copy xs empty reads short =
    put-Alone _ a _ xs (get-Alone _ a _ (sent-Alone s a type bus addr len copy empty) refl) refl
      reads short

wait-Alone :
    (s : Usim) (a : ℕ) (e : Event)
    → Alone s a e
    → e.status ≡ 0
    → wait_event_completion s a (ok 0) ≡ (record s { list = [] }, ok 0)
unfolding wait_event_completion remove
wait-Alone s a e l fine = ground (arith, l.queue, l.event, fine)

store_block :
    (e : Event) (d : ℕ → ℕ)
    → 1 ≤ e.len
    → e.len ≤ 32
    → store_read Size.block_data 34 1 e d
      ≡ (copy_in (copy_out e.len 0 e.data_area) 1 (update d 0 e.len), ok 0)
unfolding store_read
store_block e d some_bytes few = ground (arith, some_bytes, few)

-- How a block read ends on an answer of 1 to 32 bytes.
end_read-Alone :
    (s : Usim) (a : ℕ) (e : Event) (d : ℕ → ℕ)
    → s.heap a ≡ some e
    → e.refcnt ≡ 1
    → 1 ≤ e.len
    → e.len ≤ 32
    → end_read (record s { list = [] }, ok 0) a Size.block_data 34 1 d ≡ (
      record s { list = []; heap = update s.heap a none },
      copy_in (copy_out e.len 0 e.data_area) 1 (update d 0 e.len),
      ok 0,
    )
unfolding end_read put_ref put_event
end_read-Alone s a e d there one some_bytes few =
    ground (arith, there, one, store_block e d some_bytes few)

-- A block read, on an empty queue, that a receiver takes and answers with 1 to 32 bytes, returns 0
-- with the number of the bytes in the first byte of the data and the bytes after it; the queue is
-- empty again and the event is freed.
pub usim_smb_read-serve :
    (s : Usim) (a bus addr command : ℕ) (d : ℕ → ℕ) (xs : List ℕ)
    → s.list ≡ []
    → 1 ≤ length xs
    → length xs ≤ 32
    → let (s', d', r) =
        usim_smb_read
          (some a)
          (serve ((s.tickets + 1) % 2 ^ 32) xs)
          s
          bus
          addr
          command
          Size.block_data
          d in
      (r ≡ ok 0)
      × (d' 0 ≡ length xs)
      × (copy_out (length xs) 1 d' ≡ xs)
      × (s'.list ≡ [])
      × (s'.heap a ≡ none)
unfolding usim_smb_read complete read_buf serve event_type access_type
usim_smb_read-serve s a bus addr command d xs empty some_bytes few =
    let l =
      served-Alone s a (event_type smb read_access) bus addr 34 (copy_in (command ∷ []) 0) xs empty
        refl (omega (arith, few)) in
    let e = answered xs (
      start (
        new_event ((s.tickets + 1) % 2 ^ 32) (event_type smb read_access) bus addr 34
          (copy_in (command ∷ []) 0 (λ _. 0)))) in
    let S =
      (serve ((s.tickets + 1) % 2 ^ 32) xs
        (sent s a (event_type smb read_access) bus addr 34 (copy_in (command ∷ []) 0))).0 in
    rw (wait-Alone S a e l refl, end_read-Alone S a e d l.event refl some_bytes few)
      (
        refl,
        copy_in-before (copy_out (length xs) 0 e.data_area) 1 0 (update d 0 (length xs))
            (omega arith),
        rw (copy_out-copy_in xs 0 (copy_in (command ∷ []) 0 (λ _. 0)))
            (copy_out-copy_in xs 1 (update d 0 (length xs))),
        refl,
        ground arith,
      )
