-- ===== src/Platform/Registers.antt =====
-- On which boards user space can write the registers of the DMA engine: the detection of
-- bifrost/bifrost_platform.c, the choice of the BAR in bifrost/bifrost_pci.c and the access check of
-- bifrost/bifrost_cdev.c together.
use Prim.Native.String.{String}
use bifrost_module.Base.{
  ℕ, ◌<◌, ◌≡◌, ◌↔◌, refl, Bool, true, false, ok, arith, inr, ◌||◌, if◌then◌else◌,
}
use bifrost_module.Device.{Device}
use bifrost_module.Regs.{check_bar_access, wr_access}
use bifrost_module.Regs.Access.{Open, writes, check_bar_access_iff}
use bifrost_module.Pci.{Platform, dma_bar}
use bifrost_module.Platform.{
  platform_rocky, platform_evander, platform_eoco, platform_ec702, platform_fvd, detected,
}

-- The same of any answers to the four tests.
board :
    (rocky evander eoco ec702 : Bool)
    → let found =
        if rocky
        then Platform.rocky
        else (if evander
            then Platform.evander
            else (if eoco
                then Platform.eoco
                else (if ec702 then Platform.ec702 else Platform.unknown))) in
      (dma_bar found < 6)
      × (Open (rocky || (evander || (eoco || ec702))) false writes (dma_bar found) ↔ (rocky ≡ true))
unfolding dma_bar
board true evander eoco ec702 = (omega arith, (λ o. refl, λ e. inr (inr refl)))
board false true eoco ec702 = (omega arith, (λ o. absurd (ground (arith, o)), λ e. cc))
board false false true ec702 = (omega arith, (λ o. absurd (ground (arith, o)), λ e. cc))
board false false false true = (omega arith, (λ o. absurd (ground (arith, o)), λ e. cc))
board false false false false = (omega arith, (λ o. absurd (o.1 refl refl), λ e. cc))

module _ (of_machine_is_compatible : String → Bool) where
  -- The BAR of the DMA registers is open to writes on a Rocky, and on no other board.
  dma_bar-Open :
      (dma_bar (detected of_machine_is_compatible) < 6)
      × (Open
            (platform_fvd of_machine_is_compatible)
            false
            writes
            (dma_bar (detected of_machine_is_compatible))
          ↔ (platform_rocky of_machine_is_compatible ≡ true))
  unfolding platform_fvd detected dma_bar
  dma_bar-Open =
      board (platform_rocky of_machine_is_compatible) (platform_evander of_machine_is_compatible)
        (platform_eoco of_machine_is_compatible) (platform_ec702 of_machine_is_compatible)

  -- On PCI, user space is let to write a word of the BAR with the DMA registers exactly on a board
  -- that is detected as Rocky, if the BAR is mapped and the offset lies in it.
  pub dma_bar-check_bar_access :
      (d : Device) (offset : ℕ)
      → d.membus ≡ false
      → (check_bar_access
            (platform_fvd of_machine_is_compatible)
            d
            (dma_bar (detected of_machine_is_compatible))
            wr_access
            offset
          ≡ ok 0)
        ↔ ((platform_rocky of_machine_is_compatible ≡ true)
            × ((d.regb (dma_bar (detected of_machine_is_compatible))).enabled ≡ true)
            × (offset < (d.regb (dma_bar (detected of_machine_is_compatible))).size))
  dma_bar-check_bar_access d offset pci =
      let bar : ℕ = dma_bar (detected of_machine_is_compatible) in
      let (few, (to_rocky, of_rocky)) = dma_bar-Open in
      let (to, from) =
        check_bar_access_iff (platform_fvd of_machine_is_compatible) d writes bar offset in
      (
        λ e. let (lt, on, open_to, inside) = to e in (to_rocky (rw (pci) at (open_to)), on, inside),
        λ (rocky, on, inside). from (few, on, rw (pci) (of_rocky rocky), inside),
      )
