-- ===== src/Usim/Ioctl.antt =====
-- The ioctl of the I2C simulator, animal-i2c/i2c_usim.c, with the outcomes of the copies from and to
-- user space as arguments.
use bifrost_module.Base.{
  ℕ, Bool, true, false, Option, none, some, List, ltb, ◌==◌, if◌then◌else◌, copy_in, copy_out,
  bit_and, Result, ok, err, einval, eio, efault,
}
use bifrost_module.Usim.{
  Event, Usim, data_size, read_access, write_access, access_type, with_event, get_1st_ready_event,
  lookup_event_w_ticket, complete_event,
}

-- What GET_EVENT gives to user space: all of `struct i2c_usim_ioc_event` that it fills in.
pub record View : Type 0 where
  pub ticket : ℕ
  pub type : ℕ
  pub bus : ℕ
  pub addr : ℕ
  pub len : ℕ
  pub data_area : List ℕ

-- Of a read only the command is given, which the SMBus protocol needs.
abbrev pub view : Event → View
view e = record {
  ticket = e.ticket;
  type = e.type;
  bus = e.bus;
  addr = e.addr;
  len = e.len;
  data_area =
      copy_out (if bit_and (access_type e.type) write_access == 0 then 1 else e.len) 0 e.data_area;
}

-- `copied` says whether all the copies to user space succeed; a failed one ends the event.
unfoldable pub give : Bool → Usim → ℕ → Usim × Result (Option View)
give false s a = (complete_event s a eio, err efault)
give true s a = elim (s.heap a) [ none ↦ (s, ok none) | some e ↦ (s, ok (some (view e))) ]

unfoldable pub given_event : Bool → Usim × Option ℕ → Usim × Result (Option View)
unfolding give
given_event copied (s, none) = (s, err einval)
given_event copied (s, some a) = give copied s a

unfoldable pub ioc_get_event : (copied : Bool) → Usim → Usim × Result (Option View)
unfolding given_event
ioc_get_event copied s = given_event copied (get_1st_ready_event s)

-- What a read takes from user space: `len` is the result of `get_user`, and `copy_from_user` gives
-- a number of bytes. The length is stored before it is tested.
unfoldable pub take_data : Usim → ℕ → Option ℕ → (ℕ → Option (List ℕ)) → Usim × Bool
take_data s a none bytes = (s, false)
take_data s a (some len) bytes =
    let s' = with_event (λ e. record e { len = len }) s a in
    if ltb data_size len then (s', false) else elim (bytes len) [
      | none ↦ (s', false)
      | some xs ↦ (with_event (λ e. record e { data_area = copy_in xs 0 e.data_area }) s' a, true)
    ]

unfoldable pub taken_data : Usim → ℕ → Event → Option ℕ → (ℕ → Option (List ℕ)) → Usim × Bool
unfolding take_data
taken_data s a e len bytes =
    if bit_and (access_type e.type) read_access == 0 then (s, true) else take_data s a len bytes

unfoldable pub answer : Usim × Bool → ℕ → Usim × Result ℕ
answer (s, true) a = (complete_event s a 0, ok 0)
answer (s, false) a = (complete_event s a eio, err efault)

unfoldable pub put_at : Option ℕ → Usim → Option ℕ → (ℕ → Option (List ℕ)) → Usim × Result ℕ
unfolding taken_data answer
put_at none s len bytes = (s, err einval)
put_at (some a) s len bytes = elim (s.heap a) [
  | none ↦ (s, err einval)
  | some e ↦ answer (taken_data s a e len bytes) a
]

-- `ticket` and `len` are the results of `get_user`.
unfoldable pub ioc_put_event :
    (ticket len : Option ℕ) → (ℕ → Option (List ℕ)) → Usim → Usim × Result ℕ
unfolding put_at
ioc_put_event none len bytes s = (s, err efault)
ioc_put_event (some ticket) len bytes s = put_at (lookup_event_w_ticket ticket s) s len bytes
