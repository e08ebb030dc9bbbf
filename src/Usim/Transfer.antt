-- ===== src/Usim/Transfer.antt =====
-- The transfers of the simulated adapter, animal-i2c/i2c_usim.c. A transfer posts an event and
-- blocks until the receiver has completed it: `wait` is what the others do meanwhile, with the
-- result of `wait_event_interruptible`.
use bifrost_module.Base.{
  ℕ, ◌+◌, Bool, ◌||◌, Option, none, some, List, [], ◌∷◌, ltb, ◌==◌, if◌then◌else◌, update, length,
  copy_in, copy_out, Result, ok, err, einval, enomem, eproto,
}
use bifrost_module.Usim.{
  Event, Usim, event_type, read_access, write_access, with_event, alloc_i2c_event, post_event,
  wait_event_completion, put_event,
}

abbrev i2c : ℕ
i2c = 1

abbrev pub smb : ℕ
smb = 2

-- I2C_SMBUS_BLOCK_MAX
abbrev block_max : ℕ
block_max = 32

-- The sizes that the driver knows, and all others.
pub data Size : Type 0 where
  byte byte_data word_data block_data other : Size

-- The sender's half after the event is in the queue.
unfoldable pub complete : (Usim → Usim × Result ℕ) → Usim → ℕ → Usim × Result ℕ
complete wait s a = let (s', v) = wait s in wait_event_completion s' a v

-- `len` and the offset of `buf` in `union i2c_smbus_data`, an array of bytes.
unfoldable pub read_buf : Size → Option (ℕ × ℕ)
read_buf Size.byte = some (1, 0)
read_buf Size.byte_data = some (1, 0)
read_buf Size.word_data = some (2, 0)
read_buf Size.block_data = some (2 + block_max, 1)
read_buf Size.other = none

-- What a completed read stores in the data.
unfoldable pub store_read : Size → (len off : ℕ) → Event → (ℕ → ℕ) → (ℕ → ℕ) × Result ℕ
store_read Size.block_data len off e d =
    if (e.len == 0) || ltb block_max e.len
    then (d, err eproto)
    else (copy_in (copy_out e.len 0 e.data_area) off (update d 0 e.len), ok 0)
store_read size len off e d = (copy_in (copy_out len 0 e.data_area) off d, ok 0)

unfoldable pub end_read :
    Usim × Result ℕ → ℕ → Size → (len off : ℕ) → (ℕ → ℕ) → Usim × (ℕ → ℕ) × Result ℕ
unfolding store_read
end_read (s, err e) a size len off d = (put_event s a, d, err e)
end_read (s, ok v) a size len off d = elim (s.heap a) [
  | none ↦ (put_event s a, d, ok v)
  | some e ↦ let (d', r) = store_read size len off e d in (put_event s a, d', r)
]

unfoldable pub usim_smb_read :
    Option ℕ
    → (Usim → Usim × Result ℕ)
    → Usim
    → (bus addr command : ℕ) → Size
    → (ℕ → ℕ)
    → Usim × (ℕ → ℕ) × Result ℕ
unfolding read_buf end_read complete
usim_smb_read memory wait s bus addr command size d = elim (read_buf size) [
  | none ↦ (s, d, err einval)
  | some (len, off) ↦ elim memory [
    | none ↦ (s, d, err enomem)
    | some a ↦
        let s' = (alloc_i2c_event (some a) (event_type smb read_access) bus addr len s).0 in
        let s'' =
          with_event (λ e. record e { data_area = copy_in (command ∷ []) 0 e.data_area }) s' a in
        end_read (complete wait (post_event s'' a) a) a size len off d
  ]
]

-- The bytes after the command.
write_buf : Size → (ℕ → ℕ) → Option (List ℕ)
write_buf Size.byte d = some []
write_buf Size.byte_data d = some (copy_out 1 0 d)
write_buf Size.word_data d = some (copy_out 2 0 d)
write_buf Size.block_data d =
    if (d 0 == 0) || ltb block_max (d 0) then none else some (copy_out (d 0) 1 d)
write_buf Size.other d = none

-- The sender's part after the copy to the event: post it, block, and drop the reference.
send : (Usim → Usim × Result ℕ) → Usim → ℕ → Usim × Result ℕ
unfolding complete
send wait s a = let (s', v) = complete wait (post_event s a) a in (put_event s' a, v)

pub usim_smb_write :
    Option ℕ
    → (Usim → Usim × Result ℕ)
    → Usim
    → (bus addr command : ℕ) → Size
    → (ℕ → ℕ)
    → Usim × Result ℕ
unfolding write_buf send
usim_smb_write memory wait s bus addr command size d = elim (write_buf size d) [
  | none ↦ (s, err einval)
  | some xs ↦ elim memory [
    | none ↦ (s, err enomem)
    | some a ↦
        let s' =
          (alloc_i2c_event (some a) (event_type smb write_access) bus addr (1 + length xs) s).0 in
        let copy = λ (e : Event). record e { data_area = copy_in (command ∷ xs) 0 e.data_area } in
        send wait (with_event copy s' a) a
  ]
]

-- The directions of `i2c_smbus_xfer`, and all others.
pub data Direction : Type 0 where
  read write neither : Direction

pub smb_usim_xfer :
    Option ℕ
    → (Usim → Usim × Result ℕ)
    → Usim
    → (nr addr : ℕ) → Direction
    → (command : ℕ) → Size
    → (ℕ → ℕ)
    → Usim × (ℕ → ℕ) × Result ℕ
unfolding usim_smb_read usim_smb_write
smb_usim_xfer memory wait s nr addr Direction.read command size d =
    usim_smb_read memory wait s nr addr command size d
smb_usim_xfer memory wait s nr addr Direction.write command size d =
    let (s', r) = usim_smb_write memory wait s nr addr command size d in (s', d, r)
smb_usim_xfer memory wait s nr addr Direction.neither command size d = (s, d, err einval)

-- `struct i2c_msg`; `reads` is the flag I2C_M_RD.
pub record Msg : Type 0 where
  pub addr : ℕ
  pub reads : Bool
  pub len : ℕ
  pub buf : ℕ → ℕ

end_i2c_read : Usim × Result ℕ → ℕ → Msg → Usim × Msg × Result ℕ
end_i2c_read (s, err e) a msg = (put_event s a, msg, err e)
end_i2c_read (s, ok v) a msg = elim (s.heap a) [
  | none ↦ (put_event s a, msg, ok v)
  | some e ↦
      (put_event s a, record msg { buf = copy_in (copy_out msg.len 0 e.data_area) 0 msg.buf }, ok v)
]

pub usim_i2c_read :
    Option ℕ → (Usim → Usim × Result ℕ) → Usim → (bus : ℕ) → Msg → Usim × Msg × Result ℕ
unfolding end_i2c_read complete
usim_i2c_read none wait s bus msg = (s, msg, err enomem)
usim_i2c_read (some a) wait s bus msg =
    let s' = (alloc_i2c_event (some a) (event_type i2c read_access) bus msg.addr msg.len s).0 in
    end_i2c_read (complete wait (post_event s' a) a) a msg

pub usim_i2c_write :
    Option ℕ → (Usim → Usim × Result ℕ) → Usim → (bus : ℕ) → Msg → Usim × Msg × Result ℕ
unfolding send
usim_i2c_write none wait s bus msg = (s, msg, err enomem)
usim_i2c_write (some a) wait s bus msg =
    let s' = (alloc_i2c_event (some a) (event_type i2c write_access) bus msg.addr msg.len s).0 in
    let copy =
      λ (e : Event). record e { data_area = copy_in (copy_out msg.len 0 msg.buf) 0 e.data_area } in
    let (s'', r) = send wait (with_event copy s' a) a in (s'', msg, r)

-- A message with what its allocation gives and what the others do while it is in the queue.
pub record Turn : Type 0 where
  pub memory : Option ℕ
  pub wait : Usim → Usim × Result ℕ
  pub msg : Msg

one_msg : Usim → (nr : ℕ) → Turn → Usim × Msg × Result ℕ
unfolding usim_i2c_read usim_i2c_write
one_msg s nr t =
    if t.msg.reads
    then usim_i2c_read t.memory t.wait s nr t.msg
    else usim_i2c_write t.memory t.wait s nr t.msg

-- One if the result is 0.
counts : Result ℕ → ℕ
counts (ok v) = 1
counts (err e) = 0

-- The messages after the loop, and how many of them went well.
pub i2c_usim_xfer : Usim → (nr : ℕ) → List Turn → Usim × List Msg × ℕ
unfolding one_msg counts
i2c_usim_xfer s nr [] = (s, [], 0)
i2c_usim_xfer s nr (t ∷ ts) =
    let (s', msg, r) = one_msg s nr t in
    let (s'', msgs, count) = i2c_usim_xfer s' nr ts in (s'', msg ∷ msgs, counts r + count)
