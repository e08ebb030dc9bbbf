-- ===== src/Pci/Probe/Left.antt =====
-- What a probe of bifrost/bifrost_pci.c leaves.
use mathlib.Core.List.{append_assoc}
use bifrost_module.Base.{
  ℕ, true, false, some, List, [], ◌∷◌, ◌++◌, ltb, ok, err, ◌≡◌, refl, ◌∙◌, sym, ap, arith,
  Bool-cases, inl, inr, enodev,
}
use bifrost_module.Startup.{Resource, Act, Trace, take, after, is_zero, is_ok, left, with_exit}
use bifrost_module.Startup.Each.{take_each, left-take_each}
use bifrost_module.Startup.BifrostInit.{count}
use bifrost_module.Pci.Probe.{
  Answers, pci_device, msi_mode, pci_regions, map_device_memory, with_bars, with_pci_regions,
  with_msi, with_pci_device, bifrost_pci_probe, unload, ddr, bifrost_dma_cleanup,
  bifrost_pci_remove, bifrost_pci_probe_post_init,
}
use bifrost_module.Pci.Probe.Stored.{bifrost_pci_probe-stored}
use bifrost_module.Pci.Probe.PostInit.{loaded, mapped, kept, left-step, with_bars-left}

-- Acts, and then a trace from what they leave.
after-left :
    (held held' : List Resource) (exit xs : List Act) (t : Trace)
    → left held xs ≡ some held'
    → left held (with_exit (after xs t) exit) ≡ left held' (with_exit t exit)
after-left held held' exit xs (acts, ok n) e =
    rw (append_assoc xs acts exit) (left-step held held' xs (acts ++ exit) e)
after-left held held' exit xs (acts, err n) e = left-step held held' xs acts e

loaded-left :
    (a : Answers)
    → is_zero a.enable_device ≡ true
    → is_zero a.set_readrq ≡ true
    → is_zero a.set_mps ≡ true
    → is_zero a.set_ext_tag ≡ true
    → is_ok a.enable_msi ≡ true
    → is_zero a.request_regions ≡ true
    → ltb (count (map_device_memory a) 6 0) 2 ≡ false
    → is_zero a.create_group ≡ true
    → a.bus.platform ≡ true
    → ((n : ℕ) → a.bus.valid n ≡ true)
    → left (ddr ∷ []) (with_exit (bifrost_pci_probe a) (loaded a))
      ≡ some (kept (bifrost_pci_probe a).1)
unfolding bifrost_pci_probe with_pci_device with_msi with_pci_regions
loaded-left a enabled readrq mps tag enable_msi regions two group platform valid =
    let bars_trace : Trace = after (take_each 35 (map_device_memory a) 6 0) (with_bars a) in
    let regions_trace : Trace = after (take pci_regions ∷ []) bars_trace in
    let msi_trace : Trace = after (take msi_mode ∷ []) regions_trace in
    let exit : List Act = loaded a in
    rw (enabled, readrq, mps, tag, enable_msi, regions, two)
      (after-left (ddr ∷ []) (pci_device ∷ ddr ∷ []) exit (take pci_device ∷ []) msi_trace refl
        ∙ after-left (pci_device ∷ ddr ∷ []) (msi_mode ∷ pci_device ∷ ddr ∷ []) exit
            (take msi_mode ∷ []) regions_trace refl
        ∙ after-left (msi_mode ∷ pci_device ∷ ddr ∷ [])
            (pci_regions ∷ msi_mode ∷ pci_device ∷ ddr ∷ []) exit (take pci_regions ∷ []) bars_trace
            refl
        ∙ after-left (pci_regions ∷ msi_mode ∷ pci_device ∷ ddr ∷ []) (mapped a) exit
            (take_each 35 (map_device_memory a) 6 0) (with_bars a)
            (left-take_each 35 (map_device_memory a) 6 0
              (pci_regions ∷ msi_mode ∷ pci_device ∷ ddr ∷ []))
        ∙ with_bars-left a group platform valid)

pub failed_result : (t : Trace) (exit : List Act) (e : ℕ) → t.1 ≡ err e → with_exit t exit ≡ t.0
failed_result (acts, ok n) exit e failed = absurd (ground (arith, failed))
failed_result (acts, err n) exit e failed = refl

-- If the kernel enables the device, its configuration and its MSIs and gives its regions, at least
-- two BARs are mapped and the sysfs group is created, and the platform device and the resources of
-- the memory bus are there: a probe and then, if it succeeded, the exit of the PCI part give back
-- only what they took and, in the exit, the mapping at `ddr.addr`, which neither of them takes:
-- everything if the probe succeeded, and everything but the MSI mode if it failed.
pub bifrost_pci_probe-left :
    (a : Answers)
    → is_zero a.enable_device ≡ true
    → is_zero a.set_readrq ≡ true
    → is_zero a.set_mps ≡ true
    → is_zero a.set_ext_tag ≡ true
    → is_ok a.enable_msi ≡ true
    → is_zero a.request_regions ≡ true
    → ltb (count (map_device_memory a) 6 0) 2 ≡ false
    → is_zero a.create_group ≡ true
    → a.bus.platform ≡ true
    → ((n : ℕ) → a.bus.valid n ≡ true)
    → left (ddr ∷ []) (with_exit (bifrost_pci_probe a) (unload a))
      ≡ some (kept (bifrost_pci_probe a).1)
unfolding bifrost_pci_probe with_pci_device with_msi with_pci_regions with_bars
    bifrost_pci_probe_post_init unload loaded
bifrost_pci_probe-left a enabled readrq mps tag enable_msi regions two group platform valid =
    let same_exit : with_exit (bifrost_pci_probe a) (unload a)
        ≡ with_exit (bifrost_pci_probe a) (loaded a) =
      elim (Bool-cases a.dma_memory) [
        | inl memory ↦
            ap
              (λ set.
                with_exit (bifrost_pci_probe a)
                  ((bifrost_dma_cleanup set).0 ++ bifrost_pci_remove a))
              (bifrost_pci_probe-stored a enabled readrq mps tag enable_msi regions two memory)
        | inr none_left ↦
            let rc : (bifrost_pci_probe a).1 ≡ err enodev =
              simp (enabled, readrq, mps, tag, enable_msi, regions, two, none_left) in
            failed_result (bifrost_pci_probe a) (unload a) enodev rc
            ∙ sym (failed_result (bifrost_pci_probe a) (loaded a) enodev rc)
      ] in
    ap (left (ddr ∷ [])) same_exit
    ∙ loaded-left a enabled readrq mps tag enable_msi regions two group platform valid
