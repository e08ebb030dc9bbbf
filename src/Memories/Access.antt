-- ===== src/Memories/Access.antt =====
-- What user space can access once the memories of a device are mapped, and once they are unmapped.
use bifrost_module.Base.{
  ℕ, ◌<◌, ◌≡◌, ◌↔◌, refl, sym, ap, ◌∙◌, Bool, true, false, some, List, [], ◌++◌, ok, err, arith,
  replay-append,
}
use bifrost_module.Device.{Io, Memory, Device}
use bifrost_module.Regs.{check_bar_access}
use bifrost_module.Regs.Access.{Kind, code, Open, check_bar_access_iff}
use bifrost_module.Regs.Modify.{operate, refused_access}
use bifrost_module.Startup.{Resource, left, ledger}
use bifrost_module.Startup.Each.{take_each, give_each, left-take_each, left-give_each}
use bifrost_module.Startup.BifrostInit.{count}
use bifrost_module.Memories.{
  Bus, Resources, pci_bus, membus, setup_io_regions, remove_io_regions, patch_accessors,
}
use bifrost_module.Memories.Regions.{
  Maps, pci_found, membus_found, pci_bus-Maps, membus-Maps, setup_from-acts, setup_from-nbars,
  setup_from-regb, remove_from-acts, remove_from-enabled,
}

-- What the two loops do, as the resources of the BARs that can be mapped.
abbrev pub InLedger : Bus → (ℕ → Bool) → (ℕ → Memory) → Type 0
InLedger b found regb =
    let s = setup_io_regions b regb in
    let r = remove_io_regions b s.regb in
    (s.acts ≡ take_each b.kind found 6 0)
    × (s.nbars ≡ count found 6 0)
    × (r.acts ≡ give_each b.kind found 6 0)
    × ((held : List Resource) → left held (s.acts ++ r.acts) ≡ some held)

each-left :
    (k : ℕ) (found : ℕ → Bool) (n i : ℕ) (held : List Resource)
    → left held (take_each k found n i ++ give_each k found n i) ≡ some held
each-left k found n i held =
    replay-append ledger (some held) (take_each k found n i) (give_each k found n i)
    ∙ rw (left-take_each k found n i held) (left-give_each k found n i [] held (λ j. tt))

Maps-InLedger :
    (b : Bus) (found : ℕ → Bool) (regb : ℕ → Memory) → Maps b found → InLedger b found regb
unfolding setup_io_regions remove_io_regions
Maps-InLedger b found regb maps =
    let taken = setup_from-acts b found maps 6 0 regb in
    let given =
      remove_from-acts b found 6 0 (setup_io_regions b regb).regb
        (λ i le lt.
          ap (λ (m : Memory). m.bar) (setup_from-regb b found maps 6 0 i regb le lt) ∙ maps.bar i)
        (λ i le lt.
          ap (λ (m : Memory). m.enabled) (setup_from-regb b found maps 6 0 i regb le lt)
          ∙ maps.enabled i) in
    (
      taken,
      setup_from-nbars b found maps 6 0 regb,
      given,
      λ held. rw (taken, given) (each-left b.kind found 6 0 held),
    )

-- On either bus, whatever the kernel answers: setup_io_regions maps just the BARs that can be mapped
-- (on PCI those of a size for which pci_iomap gives an address, on the memory bus those of the first
-- two for which ioremap gives one), in order, and returns how many they are; remove_io_regions then
-- unmaps the same, in the same order, and after both what is held is what was held before.
pub regions-InLedger :
    (r : Resources) (ioremap : ℕ → ℕ) (regb : ℕ → Memory)
    → InLedger (pci_bus r) (pci_found r) regb
      × InLedger (membus ioremap) (membus_found ioremap) regb
regions-InLedger r ioremap regb = (
  Maps-InLedger (pci_bus r) (pci_found r) regb (pci_bus-Maps r),
  Maps-InLedger (membus ioremap) (membus_found ioremap) regb (membus-Maps ioremap),
)

-- The device once its BARs are mapped, and once they are unmapped.
abbrev pub with_regions : (fvd : Bool) → Resources → Device → Device
with_regions fvd r d = record d {
  regb = patch_accessors fvd (setup_io_regions (pci_bus r) d.regb).regb;
}

abbrev pub without_regions : Bus → Device → Device
without_regions b d = record d { regb = (remove_io_regions b d.regb).regb }

patched :
    (fvd : Bool) (regb : ℕ → Memory) (i : ℕ)
    → ((patch_accessors fvd regb i).enabled ≡ (regb i).enabled)
      × ((patch_accessors fvd regb i).size ≡ (regb i).size)
unfolding patch_accessors
patched true regb i = (ground arith, ground arith)
patched false regb i = (refl, refl)

region :
    (fvd : Bool) (r : Resources) (d : Device) (bar : ℕ)
    → bar < 6
    → (((with_regions fvd r d).regb bar).enabled ≡ pci_found r bar)
      × (((with_regions fvd r d).regb bar).size ≡ r.len bar)
unfolding setup_io_regions
region fvd r d bar lt =
    let (on, size) = patched fvd (setup_io_regions (pci_bus r) d.regb).regb bar in
    let there =
      setup_from-regb (pci_bus r) (pci_found r) (pci_bus-Maps r) 6 0 bar d.regb (omega arith)
        (omega (arith, lt)) in
    (
      on ∙ ap (λ (m : Memory). m.enabled) there ∙ (pci_bus-Maps r).enabled bar,
      size ∙ ap (λ (m : Memory). m.size) there ∙ ground arith,
    )

-- Once setup_io_regions has mapped the memories of a PCI device, whatever was there before, and the
-- accessors are patched on an FVD: an access passes the check exactly if the BAR is one of the six,
-- has a size and an address from pci_iomap, and is open to user space for this kind of access, and the
-- offset lies in its length.
pub with_regions-check_bar_access :
    (fvd : Bool) (r : Resources) (d : Device) (k : Kind) (bar offset : ℕ)
    → (check_bar_access fvd (with_regions fvd r d) bar (code k) offset ≡ ok 0)
      ↔ ((bar < 6) × (pci_found r bar ≡ true) × Open fvd d.membus k bar × (offset < r.len bar))
with_regions-check_bar_access fvd r d k bar offset =
    let (to, from) = check_bar_access_iff fvd (with_regions fvd r d) k bar offset in
    (
      λ e.
          let (lt, on, open_to, inside) = to e in
          let (enabled, size) = region fvd r d bar lt in
          (lt, sym enabled ∙ on, open_to, omega (arith, inside, size)),
      λ (lt, found, open_to, inside).
          let (enabled, size) = region fvd r d bar lt in
          from (lt, enabled ∙ found, open_to, omega (arith, inside, size)),
    )

-- Once remove_io_regions has unmapped the memories of a device, on either bus, every read, write,
-- modification and change of event mode fails with an error and does not touch the hardware.
pub without_regions-refused :
    {Hw : Type 0} (io : Io Hw) (b : Bus) (fvd : Bool) (hw : Hw) (d : Device) (k : Kind)
    (bar offset value clear set : ℕ)
    → (e : ℕ) × (operate io fvd hw (without_regions b d) k bar offset value clear set ≡ (hw, err e))
unfolding remove_io_regions
without_regions-refused io b fvd hw d k bar offset value clear set =
    refused_access io fvd hw (without_regions b d) k bar offset value clear set
      (λ (lt, on, open_to, inside).
        absurd (ground (arith, lt, on, remove_from-enabled b 6 0 bar d.regb)))
