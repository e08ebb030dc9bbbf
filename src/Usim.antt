-- ===== src/Usim.antt =====
-- The I2C simulator of animal-i2c/i2c_usim.c: events with their states and reference counts, the
-- event queue, and the file operations of the device through which a program in user space plays
-- the slaves. Memory is a heap by address, so that an event which is freed while it is in the queue
-- can be told; the queue is the list of addresses. Each function is one step.
pub mod Ioctl
pub mod Refs
pub mod Steps
pub mod Transfer
pub mod History
pub mod Receive
pub mod Twice
pub mod Cycle
mod Tests
use bifrost_module.Base.{
  ℕ, zero, suc, ◌+◌, ◌-◌, ◌*◌, ◌%◌, ◌^◌, Bool, true, false, Option, none, some, List, [], ◌∷◌, ◌++◌,
  ltb, ◌==◌, if◌then◌else◌, update, bit_and, Result, ok, err, einval, ebusy, eio, efault, enotty,
}

pub data State : Type 0 where
  ready in_progress done : State

-- `status` 0 is success, another status an error number.
pub record Event : Type 0 where
  pub refcnt : ℕ
  pub ticket : ℕ
  pub status : ℕ
  pub state : State
  pub type : ℕ
  pub bus : ℕ
  pub addr : ℕ
  pub len : ℕ
  pub data_area : ℕ → ℕ

abbrev pub data_size : ℕ
data_size = 512

-- `list` is `i2c_eventq.list`, `tickets` the counter of alloc_event, `users` is i2c_usim_users.
pub record Usim : Type 0 where
  pub heap : ℕ → Option Event
  pub list : List ℕ
  pub tickets : ℕ
  pub users : ℕ

abbrev pub read_access : ℕ
read_access = 0x1

abbrev pub write_access : ℕ
write_access = 0x2

pub event_type : (protocol access : ℕ) → ℕ
event_type protocol access = protocol * 2 ^ 16 + bit_and access 0xffff

pub access_type : ℕ → ℕ
access_type event = bit_and event 0xffff

-- A store to the event at an address. Nothing is stored to memory that is freed: what such a store
-- does is not defined.
pub with_event : (Event → Event) → Usim → ℕ → Usim
with_event f s a = elim (s.heap a) [
  | none ↦ s
  | some e ↦ record s { heap = update s.heap a (some (f e)) }
]

-- The argument is the address that `kzalloc` gives.
pub alloc_event : Option ℕ → Usim → Usim × Option ℕ
alloc_event none s = (s, none)
alloc_event (some a) s =
    let ticket = (s.tickets + 1) % 2 ^ 32 in
    (
      record s {
        tickets = ticket;
        heap = update s.heap a (
            some (record {
              refcnt = 1;
              ticket = ticket;
              status = 0;
              state = State.ready;
              type = 0;
              bus = 0;
              addr = 0;
              len = 0;
              data_area = λ _. 0;
            }));
      },
      some a,
    )

pub alloc_i2c_event : Option ℕ → (type bus addr len : ℕ) → Usim → Usim × Option ℕ
unfolding alloc_event with_event
alloc_i2c_event none type bus addr len s = alloc_event none s
alloc_i2c_event (some a) type bus addr len s = (
  with_event (λ e. record e { type = type; bus = bus; addr = addr; len = len })
      (alloc_event (some a) s).0 a,
  some a,
)

pub post_event : Usim → ℕ → Usim
unfolding with_event
post_event s a =
    let s' = with_event (λ e. record e { state = State.ready }) s a in
    record s' { list = s'.list ++ a ∷ [] }

-- `list_del`
pub remove : ℕ → List ℕ → List ℕ
remove a [] = []
remove a (x ∷ xs) = if x == a then xs else x ∷ remove a xs

-- `v` is the result of `wait_event_interruptible`: 0, or -ERESTARTSYS after a signal.
pub wait_event_completion : Usim → ℕ → Result ℕ → Usim × Result ℕ
unfolding remove
wait_event_completion s a v = (
  record s { list = remove a s.list },
  elim (s.heap a) [ none ↦ v | some e ↦ if e.status == 0 then v else err e.status ],
)

pub get_event : Usim → ℕ → Usim
unfolding with_event
get_event s a = with_event (λ e. record e { refcnt = (e.refcnt + 1) % 2 ^ 32 }) s a

-- The event with one reference less, or `none` if that was the last one.
pub put_ref : Event → Option Event
put_ref e =
    let n = (e.refcnt + 2 ^ 32 - 1) % 2 ^ 32 in
    if n == 0 then none else some (record e { refcnt = n })

pub put_event : Usim → ℕ → Usim
unfolding put_ref
put_event s a = elim (s.heap a) [
  | none ↦ s
  | some e ↦ record s { heap = update s.heap a (put_ref e) }
]

pub has_state : State → Option Event → Bool
has_state st none = false
has_state State.ready (some e) = elim e.state [ State.ready ↦ true | _ ↦ false ]
has_state State.in_progress (some e) = elim e.state [ State.in_progress ↦ true | _ ↦ false ]
has_state State.done (some e) = elim e.state [ State.done ↦ true | _ ↦ false ]

-- The loop of get_1st_ready_event and of i2c_usim_poll.
pub first_ready : (ℕ → Option Event) → List ℕ → Option ℕ
unfolding has_state
first_ready heap [] = none
first_ready heap (a ∷ rest) =
    if has_state State.ready (heap a) then some a else first_ready heap rest

pub taken : Usim → Option ℕ → Usim × Option ℕ
unfolding with_event get_event
taken s none = (s, none)
taken s (some a) =
    (get_event (with_event (λ e. record e { state = State.in_progress }) s a) a, some a)

pub get_1st_ready_event : Usim → Usim × Option ℕ
unfolding first_ready taken
get_1st_ready_event s = taken s (first_ready s.heap s.list)

pub has_ticket : ℕ → Option Event → Bool
has_ticket ticket none = false
has_ticket ticket (some e) = e.ticket == ticket

pub with_ticket : ℕ → (ℕ → Option Event) → List ℕ → Option ℕ
unfolding has_ticket
with_ticket ticket heap [] = none
with_ticket ticket heap (a ∷ rest) =
    if has_ticket ticket (heap a) then some a else with_ticket ticket heap rest

pub lookup_event_w_ticket : ℕ → Usim → Option ℕ
unfolding with_ticket
lookup_event_w_ticket ticket s = with_ticket ticket s.heap s.list

pub complete_event : Usim → ℕ → (status : ℕ) → Usim
unfolding put_event with_event
complete_event s a status =
    put_event (with_event (λ e. record e { status = status; state = State.done }) s a) a

-- atomic_add_unless(&i2c_usim_users, 1, 1)
pub i2c_usim_open : Usim → Usim × Result ℕ
i2c_usim_open s =
    if s.users == 1 then (s, err ebusy) else (record s { users = (s.users + 1) % 2 ^ 32 }, ok 0)

-- The loop of i2c_usim_release over the queue.
pub complete_orphans : List ℕ → Usim → Usim
unfolding complete_event has_state
complete_orphans [] s = s
complete_orphans (a ∷ rest) s =
    complete_orphans rest
      (if has_state State.in_progress (s.heap a) then complete_event s a eio else s)

pub i2c_usim_release : Usim → Usim
unfolding complete_orphans
i2c_usim_release s =
    let s' = complete_orphans s.list s in record s' { users = (s'.users + 2 ^ 32 - 1) % 2 ^ 32 }

-- POLLIN | POLLRDNORM
pub i2c_usim_poll : Usim → ℕ
unfolding first_ready
i2c_usim_poll s = elim (first_ready s.heap s.list) [ none ↦ 0 | some a ↦ 0x41 ]
