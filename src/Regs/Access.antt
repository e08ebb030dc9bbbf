-- ===== src/Regs/Access.antt =====
-- Which register accesses user space is allowed, for each way that the FPGA is attached.
use bifrost_module.Base.{
  ℕ, zero, suc, ◌<◌, ◌≡◌, refl, ◌≢◌, ◌↔◌, ◌⊎◌, Bool, true, false, not, ◌&&◌, ◌||◌, leb, ltb, ◌==◌,
  bit_and, bit_or, ok, arith,
}
use bifrost_module.Device.{Device}
use bifrost_module.Regs.{rd_access, wr_access, ev_access, access_table, check_bar_access}

-- The accesses that the driver checks for: reads, writes, both (to modify), and event modes.
pub data Kind : Type 0 where
  reads writes modifies sets_mode : Kind

abbrev pub code : Kind → ℕ
code reads = rd_access
code writes = wr_access
code modifies = bit_or rd_access wr_access
code sets_mode = ev_access

abbrev pub changes : Kind → Bool
changes reads = false
changes writes = true
changes modifies = true
changes sets_mode = false

-- The BARs open to user space: 0, 1 and 3 on the FVD platforms, 0 and 1 on the memory bus; on plain
-- PCI all six, where BAR 0 is not to be changed.
abbrev pub Open : (fvd membus : Bool) → Kind → ℕ → Type 0
Open true membus k bar = (bar ≡ 0) ⊎ ((bar ≡ 1) ⊎ (bar ≡ 3))
Open false true k bar = bar < 2
Open false false k bar = (bar < 6) × (changes k ≡ true → bar ≢ 0)

abbrev granted : (fvd membus : Bool) → Kind → ℕ → Bool
granted fvd membus k bar = code k == bit_and (code k) (access_table fvd membus bar)

fvd_granted :
    (membus : Bool) (k : Kind) (bar : ℕ)
    → bar < 6
    → granted true membus k bar ≡ (bar == 0) || ((bar == 1) || (bar == 3))
unfolding access_table
fvd_granted membus k zero lt = ground arith
fvd_granted membus k (suc zero) lt = ground arith
fvd_granted membus k (suc (suc zero)) lt = ground arith
fvd_granted membus k (suc (suc (suc zero))) lt = ground arith
fvd_granted membus k (suc (suc (suc (suc bar)))) lt = ground arith

membus_granted : (k : Kind) (bar : ℕ) → granted false true k bar ≡ ltb bar 2
unfolding access_table
membus_granted k zero = ground arith
membus_granted k (suc zero) = ground arith
membus_granted k (suc (suc bar)) = ground arith

pci_granted : (k : Kind) (bar : ℕ) → granted false false k bar ≡ not (changes k && bar == 0)
unfolding access_table
pci_granted k zero = ground arith
pci_granted k (suc bar) = ground arith

granted_iff :
    (fvd membus : Bool) (k : Kind) (bar : ℕ)
    → bar < 6
    → (granted fvd membus k bar ≡ true) ↔ Open fvd membus k bar
granted_iff true membus k bar lt =
    rw (fvd_granted membus k bar lt) (λ e. ground arith, λ o. ground arith)
granted_iff false true k bar lt = rw (membus_granted k bar) (λ e. ground arith, λ o. ground arith)
granted_iff false false k bar lt =
    rw (pci_granted k bar) (λ e. (lt, λ c z. ground arith), λ o. ground arith)

-- The four tests of `check_bar_access`, in its order.
module _ (fvd : Bool) (d : Device) (k : Kind) (bar offset : ℕ) where
  check_passes :
      bar < 6
      → (d.regb bar).enabled ≡ true
      → granted fvd d.membus k bar ≡ true
      → offset < (d.regb bar).size
      → check_bar_access fvd d bar (code k) offset ≡ ok 0
  unfolding check_bar_access
  check_passes lt on grant off =
      let six : leb 6 bar ≡ false = ground arith in
      let inside : leb (d.regb bar).size offset ≡ false = ground arith in
      rw (six, on, grant, inside) refl

  check_passed :
      check_bar_access fvd d bar (code k) offset ≡ ok 0
      → (bar < 6)
        × ((d.regb bar).enabled ≡ true)
        × (granted fvd d.membus k bar ≡ true)
        × (offset < (d.regb bar).size)
  unfolding check_bar_access
  check_passed e = ground arith

-- `check_bar_access` lets an access pass exactly if the BAR is one of the six, is mapped and is open
-- to user space for this kind of access, and the offset lies in the BAR.
pub check_bar_access_iff :
    (fvd : Bool) (d : Device) (k : Kind) (bar offset : ℕ)
    → (check_bar_access fvd d bar (code k) offset ≡ ok 0) ↔ (
        (bar < 6)
        × ((d.regb bar).enabled ≡ true)
        × Open fvd d.membus k bar
        × (offset < (d.regb bar).size))
check_bar_access_iff fvd d k bar offset = (
  λ e.
      let (lt, on, grant, off) = check_passed fvd d k bar offset e in
      (lt, on, (granted_iff fvd d.membus k bar lt).0 grant, off),
  λ (lt, on, open_to, off).
      check_passes fvd d k bar offset lt on ((granted_iff fvd d.membus k bar lt).1 open_to) off,
)
