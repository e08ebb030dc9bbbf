-- ===== src/Regs/Modify.antt =====
-- `do_modify_regb`: which bits of the register change, and that a refused access does not touch the
-- hardware.
use bifrost_module.Base.{
  ℕ, ◌+◌, ◌-◌, ◌^◌, ◌<◌, ◌≡◌, refl, ◌==◌, if◌then◌else◌, Bool, true, false, bit_and, bit_or, bit,
  bit-le, bit-bit_and, bit-bit_or, bit-complement, Result, ok, err, arith,
}
use bifrost_module.Device.{Io, Accessors, Memory, Device}
use bifrost_module.Base.{◌⊎◌, inl, inr, einval, efault, eacces}
use bifrost_module.Regs.Access.{
  Kind, reads, writes, modifies, sets_mode, code, Open, check_bar_access_iff,
}
use bifrost_module.Regs.{
  ev_access, rd_access, wr_access, check_bar_access, modified, rd, wr, do_read_regb, do_write_regb,
  do_modify_regb,
}

-- Bits to set are set, also those to clear; bits to clear only are cleared; all others are kept.
pub bit-modified :
    {Hw : Type 0} (io : Io Hw) (v clear set i : ℕ)
    → clear < 2 ^ 32
    → i < 32
    → bit (modified io v clear set) i
      ≡ (if bit set i == 1 then 1 else (if bit clear i == 1 then 0 else bit v i))
unfolding modified
bit-modified io v clear set i hc hi = ground (
  arith,
  bit-bit_or (bit_and v (2 ^ 32 - 1 - clear)) set i,
  bit-bit_and v (2 ^ 32 - 1 - clear) i,
  bit-complement 32 clear i hc hi,
  bit-le v i,
  bit-le set i,
  bit-le clear i,
)

-- On a PCI memory `rd` and `wr` are one 32-bit access at the offset.
rd_pci :
    {Hw : Type 0} (io : Io Hw) (mem : Memory)
    → mem.accessors ≡ Accessors.pci
    → (hw : Hw) (offset : ℕ) → rd io hw mem offset ≡ io.ioread32 hw (mem.addr + offset)
unfolding rd
rd_pci io mem kind hw offset = rw (kind, rd) refl

wr_pci :
    {Hw : Type 0} (io : Io Hw) (mem : Memory)
    → mem.accessors ≡ Accessors.pci
    → (hw : Hw) (offset value : ℕ)
    → wr io hw mem offset value ≡ io.iowrite32 hw (mem.addr + offset) value
unfolding wr
wr_pci io mem kind hw offset value = rw (kind, wr) refl

-- On a PCI memory that the access check lets pass, a modification whose bits to clear fit 32 bits
-- reads the word at the offset once and writes it back once, and of the word written, which is also
-- the value returned, the low 32 bits are set where `set` has them, clear where `clear` alone has
-- them, and else as they were read.
pub do_modify_regb_lem :
    {Hw : Type 0} (io : Io Hw) (fvd : Bool) (hw : Hw) (d : Device) (bar offset clear set : ℕ)
    → check_bar_access fvd d bar (bit_or rd_access wr_access) offset ≡ ok 0
    → (d.regb bar).accessors ≡ Accessors.pci
    → clear < 2 ^ 32
    → let address = (d.regb bar).addr + offset in
      let (v, hw') = io.ioread32 hw address in
      (w : ℕ) × (do_modify_regb io fvd hw d bar offset clear set
        ≡ (io.iowrite32 hw' address w, ok w))
      × ((i : ℕ)
          → i < 32
          → bit w i ≡ (if bit set i == 1 then 1 else (if bit clear i == 1 then 0 else bit v i)))
unfolding do_modify_regb
do_modify_regb_lem io fvd hw d bar offset clear set pass kind hc =
    let (v, hw') = io.ioread32 hw ((d.regb bar).addr + offset) in
    let w = modified io v clear set in
    (
      w,
      rw (pass, do_modify_regb)
          (ground (
            arith,
            rd_pci io (d.regb bar) kind hw offset,
            wr_pci io (d.regb bar) kind hw' offset w,
          )),
      λ i hi. bit-modified io v clear set i hc hi,
    )

-- A register operation by its kind of access; an event mode is no access to the hardware.
abbrev pub operate :
    {Hw : Type 0}
    → Io Hw
    → (fvd : Bool) → Hw
    → Device
    → Kind
    → (bar offset value clear set : ℕ) → Hw × Result ℕ
operate io fvd hw d reads bar offset value clear set = do_read_regb io fvd hw d bar offset
operate io fvd hw d writes bar offset value clear set = do_write_regb io fvd hw d bar offset value
operate io fvd hw d modifies bar offset value clear set =
    do_modify_regb io fvd hw d bar offset clear set
operate io fvd hw d sets_mode bar offset value clear set =
    (hw, check_bar_access fvd d bar ev_access offset)

-- A return of 0 or of an error.
abbrev pub IsCheck : Result ℕ → Type 0
IsCheck r = (r ≡ ok 0) ⊎ ((e : ℕ) × (r ≡ err e))

IsCheck-if : (b : Bool) (e : ℕ) (r : Result ℕ) → IsCheck r → IsCheck (if b then err e else r)
IsCheck-if true e r c = inr (e, refl)
IsCheck-if false e r c = c

pub IsCheck-cases :
    (fvd : Bool) (d : Device) (bar access offset : ℕ)
    → IsCheck (check_bar_access fvd d bar access offset)
unfolding check_bar_access
IsCheck-cases fvd d bar access offset =
    IsCheck-if _ einval _
      (IsCheck-if _ efault _ (IsCheck-if _ eacces _ (IsCheck-if _ efault _ (inl refl))))

refused_by_check :
    {Hw : Type 0} (io : Io Hw) (fvd : Bool) (hw : Hw) (d : Device) (k : Kind)
    (bar offset value clear set e : ℕ)
    → check_bar_access fvd d bar (code k) offset ≡ err e
    → operate io fvd hw d k bar offset value clear set ≡ (hw, err e)
unfolding do_read_regb do_write_regb do_modify_regb
refused_by_check io fvd hw d reads bar offset value clear set e r = rw (r, do_read_regb) refl
refused_by_check io fvd hw d writes bar offset value clear set e r = rw (r, do_write_regb) refl
refused_by_check io fvd hw d modifies bar offset value clear set e r = rw (r, do_modify_regb) refl
refused_by_check io fvd hw d sets_mode bar offset value clear set e r = rw r refl

-- A read, a write, a modification or a change of event mode of a BAR that does not exist, is not
-- mapped or is not open to user space for it, or at an offset outside the BAR, fails with an error
-- and does not touch the hardware.
pub refused_access :
    {Hw : Type 0} (io : Io Hw) (fvd : Bool) (hw : Hw) (d : Device) (k : Kind)
    (bar offset value clear set : ℕ)
    → ¬ (
        (bar < 6)
        × ((d.regb bar).enabled ≡ true)
        × Open fvd d.membus k bar
        × (offset < (d.regb bar).size))
    → (e : ℕ) × (operate io fvd hw d k bar offset value clear set ≡ (hw, err e))
refused_access io fvd hw d k bar offset value clear set closed =
    elim (IsCheck-cases fvd d bar (code k) offset) [
      | inl pass ↦ absurd (closed ((check_bar_access_iff fvd d k bar offset).0 pass))
      | inr (e, r) ↦ (e, refused_by_check io fvd hw d k bar offset value clear set e r)
    ]
