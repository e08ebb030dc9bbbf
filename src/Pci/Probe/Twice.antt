-- ===== src/Pci/Probe/Twice.antt =====
-- A probe of bifrost/bifrost_pci.c that fails late, and the exit of the module after it.
use bifrost_module.Base.{
  ℕ, true, false, some, none, List, [], ◌∷◌, ◌++◌, ltb, err, ◌≡◌, ap, ◌∙◌, Result, replay,
  replay-append, enodev, sym, Option,
}
use bifrost_module.Startup.{Resource, give, is_zero, is_ok, left, ledger}
use bifrost_module.Startup.BifrostInit.{bifrost_fvd_init, count}
use bifrost_module.Pci.Probe.{
  Answers, dma_ctl, map_device_memory, with_dma, with_bars, with_pci_regions, with_msi,
  with_pci_device, bifrost_pci_probe_post_init, bifrost_pci_probe, unload, bifrost_dma_cleanup,
  stored, ddr, msi_mode,
}
use bifrost_module.Pci.Probe.PostInit.{kept}
use bifrost_module.Pci.Probe.Left.{failed_result, bifrost_pci_probe-left}
use bifrost_module.Pci.Probe.Stored.{bifrost_pci_probe-stored}

-- On an FVD, if the kernel grants all but bifrost_fvd_init, which fails: the probe fails and gives back
-- the DMA controller, `dma_ctl` of the device is set after it, and bifrost_dma_cleanup, with which the
-- exit of the module begins, gives back the controller once more, which is not held.
pub bifrost_pci_probe-freed_twice :
    (a : Answers)
    → is_zero a.enable_device ≡ true
    → is_zero a.set_readrq ≡ true
    → is_zero a.set_mps ≡ true
    → is_zero a.set_ext_tag ≡ true
    → is_ok a.enable_msi ≡ true
    → is_zero a.request_regions ≡ true
    → ltb (count (map_device_memory a) 6 0) 2 ≡ false
    → is_zero a.create_group ≡ true
    → a.bus.platform ≡ true
    → ((n : ℕ) → a.bus.valid n ≡ true)
    → a.fvd ≡ true
    → a.dma_memory ≡ true
    → is_zero (bifrost_fvd_init a.bus).1 ≡ false
    → (is_ok (bifrost_pci_probe a).1 ≡ false)
      × (stored (bifrost_pci_probe a).0 false ≡ true)
      × (left (ddr ∷ []) (bifrost_pci_probe a).0 ≡ some (msi_mode ∷ ddr ∷ []))
      × (left (ddr ∷ []) (
            (bifrost_pci_probe a).0
            ++ (bifrost_dma_cleanup (stored (bifrost_pci_probe a).0 false)).0)
          ≡ none)
unfolding bifrost_pci_probe with_pci_device with_msi with_pci_regions with_bars
    bifrost_pci_probe_post_init with_dma
bifrost_pci_probe-freed_twice a enabled readrq mps tag enable_msi regions two group platform valid
      fvd memory failed =
    let rc : (bifrost_pci_probe a).1 ≡ err enodev =
      simp (enabled, readrq, mps, tag, enable_msi, regions, two, memory, fvd, failed) in
    let all : left (ddr ∷ []) (bifrost_pci_probe a).0 ≡ some (kept (bifrost_pci_probe a).1) =
      ap (left (ddr ∷ [])) (sym (failed_result (bifrost_pci_probe a) (unload a) enodev rc))
      ∙ bifrost_pci_probe-left a enabled readrq mps tag enable_msi regions two group platform
          valid in
    let gone : left (ddr ∷ []) (bifrost_pci_probe a).0 ≡ some (msi_mode ∷ ddr ∷ []) =
      all ∙ ap (λ (r : Result ℕ). some (kept r)) rc in
    let set = bifrost_pci_probe-stored a enabled readrq mps tag enable_msi regions two memory in
    (
      ap is_ok rc,
      set,
      gone,
      ap (λ b. left (ddr ∷ []) ((bifrost_pci_probe a).0 ++ (bifrost_dma_cleanup b).0)) set
          ∙ replay-append ledger (some (ddr ∷ [])) (bifrost_pci_probe a).0 (give dma_ctl ∷ [])
          ∙ ap (λ (o : Option (List Resource)). replay ledger o (give dma_ctl ∷ [])) gone,
    )
