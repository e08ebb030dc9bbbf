-- ===== src/Animal/Ioctl.antt =====
-- The ioctl of the I2C driver of user space, animal-i2c/i2c_main.c. What user space gives to and takes
-- from a command is part of the command; the I2C core is an argument.
use bifrost_module.Base.{
  ℕ, ◌+◌, Bool, true, false, Option, none, some, List, [], ◌∷◌, ltb, if◌then◌else◌, copy_in,
  copy_out, bit_and, Result, ok, err, efault, enomem, enotty,
}
use bifrost_module.Animal.{
  Device, Handle, Request, Outcome, access, returns, set_address, set_gpio, set_adapter, read_byte,
  write_byte, read_word, write_word, read_block, write_block, transfer, write_msg, read_msg,
}

abbrev pub animal_smb_buffer_max_size : ℕ
animal_smb_buffer_max_size = 32

abbrev pub animal_i2c_buffer_max_size : ℕ
animal_i2c_buffer_max_size = 2048

-- The commands. A number from `get_user` is `none` when that fails, the bytes from `copy_from_user`
-- are `none` when that fails, `put` says whether what is given to user space arrives, and `memory`
-- whether `kmalloc` succeeds. Of the signed arguments the inner `none` is a negative number.
pub data Command : Type 0 where
  info : (put : Bool) → Command
  address : Option ℕ → Command
  gpio : Option (Option ℕ) → Command
  adapter : Option (Option ℕ) → Command
  smb_read8 : (command : Option ℕ) (put : Bool) → Command
  smb_write8 : (command byte : Option ℕ) → Command
  smb_read16 : (command : Option ℕ) (put : Bool) → Command
  smb_write16 : (command word : Option ℕ) → Command
  smb_read_block : (command size : Option ℕ) (put : Bool) → Command
  smb_write_block : (command size : Option ℕ) (block : ℕ → Option (List ℕ)) → Command
  i2c_write : (command size : Option ℕ) (memory : Bool) (block : ℕ → Option (List ℕ)) → Command
  i2c_writeread : (command size : Option ℕ) (memory put : Bool) → Command
  other : Command

-- What the I2C core does with a request: its return value, and the bytes it stores.
pub record Answer : Type 0 where
  pub rc : Result ℕ
  pub bytes : List ℕ

-- The state after a call of the core, with a result.
unfoldable pub accessed : Handle → Request → List ℕ → Result ℕ → Outcome
unfolding access
accessed h r out rc = record { handle = h; actions = access h r; out = out; result = rc }

-- The end of a read: an error of the core is returned, else `out` is given to user space.
unfoldable pub given : Handle → Request → List ℕ → (put : Bool) → Result ℕ → Outcome
unfolding accessed
given h r out put (err e) = accessed h r [] (err e)
given h r out false (ok rc) = accessed h r [] (err efault)
given h r out true (ok rc) = accessed h r out (ok 0)

-- The result of a byte or word read, as far as `mask` keeps it.
unfoldable pub masked : Result ℕ → (mask : ℕ) → List ℕ
masked (ok rc) mask = bit_and rc mask ∷ []
masked (err e) mask = []

-- The first command byte; `none` is a failed `get_user`.
unfoldable pub with_user : Handle → Option ℕ → (ℕ → Outcome) → Outcome
unfolding returns
with_user h none f = returns h (err efault)
with_user h (some n) f = f n

-- A write whose data may be missing.
unfoldable pub with_bytes : Handle → Option (List ℕ) → (List ℕ → Outcome) → Outcome
unfolding returns
with_bytes h none f = returns h (err efault)
with_bytes h (some xs) f = f xs

unfoldable pub do_info : Device → Handle → (put : Bool) → Outcome
unfolding returns
do_info d h true = record (returns h (ok 0)) { out = d.info }
do_info d h false = returns h (err efault)

unfoldable pub do_read : Handle → Request → (mask : ℕ) → (put : Bool) → (Request → Answer) → Outcome
unfolding given masked
do_read h r mask put core = given h r (masked (core r).rc mask) put (core r).rc

unfoldable pub do_write : Handle → Request → (Request → Answer) → Outcome
unfolding accessed
do_write h r core = accessed h r [] (core r).rc

-- `block` is the buffer on the stack, as it stands before the call.
unfoldable pub do_read_block :
    Handle → (block : ℕ → ℕ) → (command size : ℕ) (put : Bool) → (Request → Answer) → Outcome
unfolding given
do_read_block h block command size put core =
    let n = if ltb animal_smb_buffer_max_size size then animal_smb_buffer_max_size else size in
    let r = read_block h.addr command in
    given h r (copy_out n 0 (copy_in (core r).bytes 0 block)) put (core r).rc

unfoldable pub do_write_block :
    Handle → (command size : ℕ) → (ℕ → Option (List ℕ)) → (Request → Answer) → Outcome
unfolding with_bytes do_write
do_write_block h command size bytes core =
    let n = if ltb animal_smb_buffer_max_size size then animal_smb_buffer_max_size else size in
    with_bytes h (bytes n) (λ xs. do_write h (write_block h.addr command xs) core)

-- Whether the buffer on the stack has no room for `n` bytes and `kmalloc` gives none either.
unfoldable pub no_memory : (n : ℕ) (memory : Bool) → Bool
no_memory n true = false
no_memory n false = ltb animal_smb_buffer_max_size n

unfoldable pub do_i2c_write :
    Handle
    → (command size : ℕ) (memory : Bool) → (ℕ → Option (List ℕ))
    → (Request → Answer)
    → Outcome
unfolding returns no_memory with_bytes do_write
do_i2c_write h command size memory bytes core =
    if ltb animal_i2c_buffer_max_size size
    then returns h (err efault)
    else if no_memory (size + 1) memory
    then returns h (err enomem)
    else with_bytes h (bytes size)
        (λ xs. do_write h (transfer (write_msg h.addr (command ∷ xs) ∷ [])) core)

-- A read of more than the size of `block` goes to memory of its own. User space is given `size`
-- bytes from `block` on in both cases; past its end these are what stands behind it.
unfoldable pub block_after : (block : ℕ → ℕ) → (size : ℕ) → List ℕ → ℕ → ℕ
block_after block size bytes =
    if ltb animal_smb_buffer_max_size size then block else copy_in bytes 0 block

unfoldable pub do_i2c_writeread :
    Handle → (block : ℕ → ℕ) → (command size : ℕ) (memory put : Bool) → (Request → Answer) → Outcome
unfolding returns no_memory given block_after
do_i2c_writeread h block command size memory put core =
    if ltb animal_i2c_buffer_max_size size
    then returns h (err efault)
    else if no_memory size memory
    then returns h (err enomem)
    else let r = transfer (write_msg h.addr (command ∷ []) ∷ read_msg h.addr size ∷ []) in
      given h r (copy_out size 0 (block_after block size (core r).bytes)) put (core r).rc

unfoldable pub do_animal_ioctl :
    Device → (block : ℕ → ℕ) → (Request → Answer) → Handle → Command → Outcome
unfolding do_info set_address set_gpio set_adapter with_user do_read do_write do_read_block
    do_write_block do_i2c_write do_i2c_writeread returns
do_animal_ioctl d block core h (info put) = do_info d h put
do_animal_ioctl d block core h (address n) = set_address h n
do_animal_ioctl d block core h (gpio n) = set_gpio d h n
do_animal_ioctl d block core h (adapter n) = set_adapter d h n
do_animal_ioctl d block core h (smb_read8 c put) =
    with_user h c (λ command. do_read h (read_byte h.addr command) 0xff put core)
do_animal_ioctl d block core h (smb_write8 c b) =
    with_user h c
      (λ command. with_user h b (λ byte. do_write h (write_byte h.addr command byte) core))
do_animal_ioctl d block core h (smb_read16 c put) =
    with_user h c (λ command. do_read h (read_word h.addr command) 0xffff put core)
do_animal_ioctl d block core h (smb_write16 c w) =
    with_user h c
      (λ command. with_user h w (λ word. do_write h (write_word h.addr command word) core))
do_animal_ioctl d block core h (smb_read_block c n put) =
    with_user h c (λ command. with_user h n (λ size. do_read_block h block command size put core))
do_animal_ioctl d block core h (smb_write_block c n bytes) =
    with_user h c (λ command. with_user h n (λ size. do_write_block h command size bytes core))
do_animal_ioctl d block core h (i2c_write c n memory bytes) =
    with_user h c (λ command. with_user h n (λ size. do_i2c_write h command size memory bytes core))
do_animal_ioctl d block core h (i2c_writeread c n memory put) =
    with_user h c
      (λ command. with_user h n (λ size. do_i2c_writeread h block command size memory put core))
do_animal_ioctl d block core h other = returns h (err enotty)
