-- ===== src/Regs.antt =====
-- Register access: the accessors of bifrost/bifrost_pci.c and bifrost/bifrost_membus.c, the access
-- check and the register operations of bifrost/bifrost_cdev.c. The spin lock of a memory is the
-- atomicity of each operation.
pub mod Access
pub mod Modify
pub mod Compose
pub mod Beyond
pub mod Ioctl
pub mod Rounds
mod Tests
use bifrost_module.Base.{
  ℕ, zero, suc, ◌+◌, ◌-◌, ◌*◌, ◌%◌, ◌^◌, Bool, true, false, leb, ◌==◌, not, if◌then◌else◌, bit_and,
  bit_or, Result, ok, err, einval, efault, eacces,
}
use bifrost_module.Device.{Io, Accessors, Memory, Device}

abbrev pub rd_access : ℕ
rd_access = 0x1

abbrev pub wr_access : ℕ
wr_access = 0x2

abbrev pub ev_access : ℕ
ev_access = 0x4

-- The three tables, BAR by BAR, each with six entries.
user_space_bar_access : ℕ → ℕ
user_space_bar_access zero = bit_or rd_access ev_access
user_space_bar_access _ = bit_or (bit_or rd_access wr_access) ev_access

user_space_bar_access_fvd : ℕ → ℕ
user_space_bar_access_fvd zero = bit_or (bit_or rd_access wr_access) ev_access
user_space_bar_access_fvd (suc zero) = bit_or (bit_or rd_access wr_access) ev_access
user_space_bar_access_fvd (suc (suc zero)) = 0
user_space_bar_access_fvd (suc (suc (suc zero))) = bit_or (bit_or rd_access wr_access) ev_access
user_space_bar_access_fvd _ = 0

user_space_membus_access : ℕ → ℕ
user_space_membus_access zero = bit_or (bit_or rd_access wr_access) ev_access
user_space_membus_access (suc zero) = bit_or (bit_or rd_access wr_access) ev_access
user_space_membus_access _ = 0

-- The table that applies; `fvd` is `platform_fvd()`.
pub access_table : (fvd membus : Bool) → ℕ → ℕ
unfolding user_space_bar_access user_space_bar_access_fvd user_space_membus_access
access_table true membus bar = user_space_bar_access_fvd bar
access_table false true bar = user_space_membus_access bar
access_table false false bar = user_space_bar_access bar

pub check_bar_access : (fvd : Bool) → Device → (bar access offset : ℕ) → Result ℕ
check_bar_access fvd d bar access offset =
    if leb 6 bar
    then err einval
    else (if not (d.regb bar).enabled
        then err efault
        else (if not (access == bit_and access (access_table fvd d.membus bar))
            then err eacces
            else (if leb (d.regb bar).size offset then err efault else ok 0)))

module _ {Hw : Type 0} (io : Io Hw) where
  open io use {ioread16, ioread32, iowrite16, iowrite32}

  -- `offset << 1` is computed on a `u32`.
  pub membus_write_device_memory : Hw → Memory → (offset value : ℕ) → Hw
  membus_write_device_memory hw mem offset value =
      iowrite16 hw (mem.addr + offset * 2 % 2 ^ 32) (value % 2 ^ 16)

  unfoldable pub membus_read_device_memory : Hw → Memory → (offset : ℕ) → ℕ × Hw
  membus_read_device_memory hw mem offset = ioread16 hw (mem.addr + offset * 2 % 2 ^ 32)

  pub write_device_memory : Hw → Memory → (offset value : ℕ) → Hw
  write_device_memory hw mem offset value = iowrite32 hw (mem.addr + offset) value

  unfoldable pub read_device_memory : Hw → Memory → (offset : ℕ) → ℕ × Hw
  read_device_memory hw mem offset = ioread32 hw (mem.addr + offset)

  -- `mem->wr` and `mem->rd`, which always return 0.
  pub wr : Hw → Memory → (offset value : ℕ) → Hw
  unfolding membus_write_device_memory write_device_memory
  wr hw mem offset value = elim mem.accessors [
    | Accessors.pci ↦ write_device_memory hw mem offset value
    | Accessors.membus ↦ membus_write_device_memory hw mem offset value
  ]

  unfoldable pub rd : Hw → Memory → (offset : ℕ) → ℕ × Hw
  unfolding membus_read_device_memory read_device_memory
  rd hw mem offset = elim mem.accessors [
    | Accessors.pci ↦ read_device_memory hw mem offset
    | Accessors.membus ↦ membus_read_device_memory hw mem offset
  ]

  -- `ok v` is a return of 0 with v in `*value`.
  pub do_read_regb : (fvd : Bool) → Hw → Device → (bar offset : ℕ) → Hw × Result ℕ
  do_read_regb fvd hw d bar offset = elim (check_bar_access fvd d bar rd_access offset) [
    | err e ↦ (hw, err e)
    | ok _ ↦ let (v, hw') = rd hw (d.regb bar) offset in (hw', ok v)
  ]

  pub do_write_regb : (fvd : Bool) → Hw → Device → (bar offset value : ℕ) → Hw × Result ℕ
  do_write_regb fvd hw d bar offset value = elim (check_bar_access fvd d bar wr_access offset) [
    | err e ↦ (hw, err e)
    | ok _ ↦ (wr hw (d.regb bar) offset value, ok 0)
  ]

  -- `(v & ~clear) | set`
  pub modified : (v clear set : ℕ) → ℕ
  modified v clear set = bit_or (bit_and v (2 ^ 32 - 1 - clear)) set

  pub do_modify_regb : (fvd : Bool) → Hw → Device → (bar offset clear set : ℕ) → Hw × Result ℕ
  unfolding modified
  do_modify_regb fvd hw d bar offset clear set =
      elim (check_bar_access fvd d bar (bit_or rd_access wr_access) offset) [
        | err e ↦ (hw, err e)
        | ok _ ↦
            let (v, hw') = rd hw (d.regb bar) offset in
            (wr hw' (d.regb bar) offset (modified v clear set), ok (modified v clear set))
      ]
