-- ===== src/Pci/Probe/Stored.antt =====
-- That a probe of bifrost/bifrost_pci.c sets the pointer to the DMA controller.
use bifrost_module.Base.{
  Bool, true, false, List, [], ◌∷◌, ◌++◌, ltb, if◌then◌else◌, ◌≡◌, refl, ap, ◌∙◌, arith, Bool-cases,
  inl, inr,
}
use bifrost_module.Startup.{Act, Trace, take, give, same, is_zero, is_ok}
use bifrost_module.Startup.BifrostInit.{count}
use bifrost_module.Startup.Each.{take_each}
use bifrost_module.Pci.Probe.{
  Answers, pci_device, msi_mode, pci_regions, dma_ctl, map_device_memory, attach, with_dma,
  bifrost_pci_probe_post_init, err_pci_post_init, post_init_done, with_post_init, with_bars,
  with_pci_regions, with_msi, with_pci_device, bifrost_pci_probe, stored,
}

stored-true : (acts : List Act) → stored acts true ≡ true
unfolding stored
stored-true [] = refl
stored-true (take r ∷ acts) = ground (arith, stored-true acts)
stored-true (give r ∷ acts) = ground (arith, stored-true acts)

stored-append : (xs ys : List Act) (set : Bool) → stored (xs ++ ys) set ≡ stored ys (stored xs set)
unfolding stored
stored-append [] ys set = refl
stored-append (take r ∷ xs) ys set = stored-append xs ys (if same r dma_ctl then true else set)
stored-append (give r ∷ xs) ys set = stored-append xs ys _

abbrev Sets : List Act → Type 0
Sets acts = (set : Bool) → stored acts set ≡ true

Sets-behind : (xs ys : List Act) → Sets ys → Sets (xs ++ ys)
Sets-behind xs ys s set = stored-append xs ys set ∙ s (stored xs set)

Sets-before : (xs ys : List Act) → Sets xs → Sets (xs ++ ys)
Sets-before xs ys s set = stored-append xs ys set ∙ ap (stored ys) (s set) ∙ stored-true ys

taken-Sets : (acts : List Act) → Sets (take dma_ctl ∷ acts)
unfolding stored
taken-Sets acts set = stored-true acts

post_init_done-Sets :
    (a : Answers) (t next : Trace) → Sets (t.0) → Sets ((post_init_done a t next).0)
post_init_done-Sets a (acts, rc) next s = elim (Bool-cases (is_zero rc)) [
  | inl fine ↦ rw (fine) (Sets-before acts next.0 s)
  | inr bad ↦ rw (bad) (Sets-before acts (err_pci_post_init a) s)
]

with_bars-Sets : (a : Answers) → a.dma_memory ≡ true → Sets ((with_bars a).0)
unfolding with_bars bifrost_pci_probe_post_init
with_bars-Sets a memory = post_init_done-Sets a (bifrost_pci_probe_post_init a) (with_post_init a) (
    rw (memory)
      (Sets-behind (attach a) (take dma_ctl ∷ (with_dma a).0) (taken-Sets (with_dma a).0)))

pub bifrost_pci_probe-stored :
    (a : Answers)
    → is_zero a.enable_device ≡ true
    → is_zero a.set_readrq ≡ true
    → is_zero a.set_mps ≡ true
    → is_zero a.set_ext_tag ≡ true
    → is_ok a.enable_msi ≡ true
    → is_zero a.request_regions ≡ true
    → ltb (count (map_device_memory a) 6 0) 2 ≡ false
    → a.dma_memory ≡ true
    → stored (bifrost_pci_probe a).0 false ≡ true
unfolding bifrost_pci_probe with_pci_device with_msi with_pci_regions
bifrost_pci_probe-stored a enabled readrq mps tag enable_msi regions two memory =
    let each : List Act = take_each 35 (map_device_memory a) 6 0 in
    rw (enabled, readrq, mps, tag, enable_msi, regions, two)
      (Sets-behind (take pci_device ∷ take msi_mode ∷ take pci_regions ∷ [])
        (each ++ (with_bars a).0) (Sets-behind each (with_bars a).0 (with_bars-Sets a memory))
        false)
