-- ===== src/Regs/Compose.antt =====
-- do_modify_regb of bifrost/bifrost_cdev.c against do_read_regb and do_write_regb.
use bifrost_module.Base.{ℕ, ◌≡◌, refl, Bool, true, false, bit_or, Result, ok, err}
use bifrost_module.Device.{Io, Device}
use bifrost_module.Regs.{
  rd_access, wr_access, check_bar_access, modified, do_read_regb, do_write_regb, do_modify_regb,
}
use bifrost_module.Regs.Access.{reads, writes, modifies, Open, check_bar_access_iff}

-- A modification made of a read and a write: two accesses, with a check for each, and the value
-- written as the result.
abbrev pub write_modified :
    {Hw : Type 0}
    → Io Hw
    → (fvd : Bool) → Device
    → (bar offset clear set : ℕ) → Hw × Result ℕ
    → Hw × Result ℕ
write_modified io fvd d bar offset clear set (hw, err e) = (hw, err e)
write_modified io fvd d bar offset clear set (hw, ok v) =
    let (hw', rc) = do_write_regb io fvd hw d bar offset (modified io v clear set) in
    (hw', elim rc [ err e ↦ err e | ok _ ↦ ok (modified io v clear set) ])

-- A BAR that is open to writes is open to reads and to modifications.
Open-reads : (fvd membus : Bool) (bar : ℕ) → Open fvd membus writes bar → Open fvd membus reads bar
Open-reads true membus bar o = o
Open-reads false true bar o = o
Open-reads false false bar (lt, nonzero) = (lt, λ e. absurd (cc e))

Open-modifies :
    (fvd membus : Bool) (bar : ℕ) → Open fvd membus writes bar → Open fvd membus modifies bar
Open-modifies true membus bar o = o
Open-modifies false true bar o = o
Open-modifies false false bar o = o

-- Where a write is let pass, a modification, which is done in one go under the lock, does and returns
-- what a read and a write of the modified value do, whatever the hardware is.
pub do_modify_regb-write :
    {Hw : Type 0} (io : Io Hw) (fvd : Bool) (hw : Hw) (d : Device) (bar offset clear set : ℕ)
    → check_bar_access fvd d bar wr_access offset ≡ ok 0
    → do_modify_regb io fvd hw d bar offset clear set
      ≡ write_modified io fvd d bar offset clear set (do_read_regb io fvd hw d bar offset)
unfolding do_modify_regb do_read_regb do_write_regb
do_modify_regb-write io fvd hw d bar offset clear set pass =
    let (lt, on, open_to, inside) = (check_bar_access_iff fvd d writes bar offset).0 pass in
    let readable : check_bar_access fvd d bar rd_access offset ≡ ok 0 =
      (check_bar_access_iff fvd d reads bar offset).1
        (lt, on, Open-reads fvd d.membus bar open_to, inside) in
    let modifiable : check_bar_access fvd d bar (bit_or rd_access wr_access) offset ≡ ok 0 =
      (check_bar_access_iff fvd d modifies bar offset).1
        (lt, on, Open-modifies fvd d.membus bar open_to, inside) in
    rw (do_modify_regb, modifiable, do_read_regb, readable, do_write_regb, pass) refl
