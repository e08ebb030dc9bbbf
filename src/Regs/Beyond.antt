-- ===== src/Regs/Beyond.antt =====
-- The range check of register accesses against the memory that is mapped.
use bifrost_module.Base.{ℕ, ◌+◌, ◌*◌, ◌%◌, ◌^◌, ◌≤◌, ◌<◌, ◌≡◌, refl, Bool, true, false, ok, arith}
use bifrost_module.Device.{Io, Accessors, Device}
use bifrost_module.Regs.{do_write_regb, wr, check_bar_access, wr_access}
use bifrost_module.Regs.Access.{writes, Open, check_bar_access_iff}

-- On a PCI memory, the word that a permitted write stores to starts inside the memory.
pub do_write_regb_inside :
    {Hw : Type 0} (io : Io Hw) (fvd : Bool) (hw : Hw) (d : Device) (bar offset value : ℕ)
    → (d.regb bar).accessors ≡ Accessors.pci
    → check_bar_access fvd d bar wr_access offset ≡ ok 0
    → (address : ℕ) × (do_write_regb io fvd hw d bar offset value
        ≡ (io.iowrite32 hw address value, ok 0))
      × ((d.regb bar).addr ≤ address)
      × (address < (d.regb bar).addr + (d.regb bar).size)
unfolding do_write_regb wr
do_write_regb_inside io fvd hw d bar offset value kind pass =
    let (lt, on, open_to, off) = (check_bar_access_iff fvd d writes bar offset).0 pass in
    ((d.regb bar).addr + offset, rw (pass, do_write_regb, kind, wr) refl, omega arith, omega arith)

-- On the memory bus, not on an FVD, the offset is doubled after the check: every write at an offset
-- below 2^31 in the upper half of a mapped BAR 0 or 1 is let pass, and stores to an address at or
-- beyond the end of the memory.
pub membus_write_beyond :
    {Hw : Type 0} (io : Io Hw) (hw : Hw) (d : Device) (bar offset value : ℕ)
    → d.membus ≡ true
    → bar < 2
    → (d.regb bar).enabled ≡ true
    → (d.regb bar).accessors ≡ Accessors.membus
    → (d.regb bar).size ≤ offset * 2
    → offset < (d.regb bar).size
    → offset < 2 ^ 31
    → (address : ℕ) × (do_write_regb io false hw d bar offset value
        ≡ (io.iowrite16 hw address (value % 2 ^ 16), ok 0))
      × ((d.regb bar).addr + (d.regb bar).size ≤ address)
unfolding do_write_regb wr
membus_write_beyond io hw d bar offset value bus two on kind upper inside small =
    let open_to : Open false d.membus writes bar = rw bus two in
    let pass : check_bar_access false d bar wr_access offset ≡ ok 0 =
      (check_bar_access_iff false d writes bar offset).1 (omega arith, on, open_to, inside) in
    ((d.regb bar).addr + offset * 2 % 2 ^ 32, rw (pass, do_write_regb, kind, wr) refl, omega arith)
