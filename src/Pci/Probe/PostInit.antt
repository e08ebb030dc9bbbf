-- ===== src/Pci/Probe/PostInit.antt =====
-- bifrost_pci_probe_post_init of bifrost/bifrost_pci.c and what follows it: what a probe leaves once
-- the BARs are mapped.
use mathlib.Core.List.{append_assoc}
use bifrost_module.Base.{
  ℕ, zero, suc, ◌+◌, ◌≤◌, Bool, true, false, some, List, [], ◌∷◌, ◌++◌, ◌==◌, if◌then◌else◌, Result,
  ok, err, ◌≡◌, refl, sym, ap, ◌∙◌, arith, replay, replay-append, Bool-cases, inl, inr,
}
use bifrost_module.Startup.{
  Resource, resource, Act, take, give, same, is_zero, left, ledger, with_exit, remove,
  remove_behind, Differs, Differs-append,
}
use bifrost_module.Startup.Each.{give_each, each, when, left-give_each}
use bifrost_module.Startup.BifrostInit.{bifrost_fvd_init, bifrost_fvd_exit, platform_device}
use bifrost_module.Startup.BifrostClean.{fvd_init-left}
use bifrost_module.Pci.Attach.{msi, copied}
use bifrost_module.Pci.Attach.Detached.{granted, left-attach_msis, left-detach_msis, msi-fresh}
use bifrost_module.Pci.Probe.{
  Answers, pci_device, msi_mode, pci_regions, dma_ctl, ddr, sysfs_group, map_device_memory,
  msi_interrupts, attach, detach, with_dma, bifrost_pci_probe_post_init, err_pci_post_init,
  with_post_init, with_bars, bifrost_pci_remove,
}

-- A resource of another kind differs from all those of a loop.
each-Differs :
    (k l x : ℕ) (found : ℕ → Bool) (n i : ℕ)
    → (l == k) ≡ false
    → Differs (resource l x) (each k found n i)
each-Differs k l x found zero i other = tt
each-Differs k l x found (suc n) i other =
    Differs-append (resource l x) (each k found n (i + 1)) (when (found i) (resource k i))
      (each-Differs k l x found n (i + 1) other) (one (found i))
  where
    one : (b : Bool) → Differs (resource l x) (when b (resource k i))
    one true = (rw (other, same) refl, tt)
    one false = tt

-- What is held once the BARs are mapped, and once the interrupts are attached.
abbrev bars : Answers → List Resource → List Resource
bars a held = each 35 (map_device_memory a) 6 0 ++ held

abbrev pub mapped : Answers → List Resource
mapped a = bars a (pci_regions ∷ msi_mode ∷ pci_device ∷ ddr ∷ [])

abbrev interrupts : Answers → List Resource → List Resource
interrupts a held =
    granted a.requests a.irq (msi_interrupts a) (copied a.fvd (msi_interrupts a) msi) ++ held

few : (a : Answers) → msi_interrupts a ≤ 32
few a = elim a.fvd as (λ b. (if b then 1 else 32) ≤ 32) [ true ↦ omega arith | false ↦ omega arith ]

attach-left : (a : Answers) (held : List Resource) → left held (attach a) ≡ some (interrupts a held)
attach-left a held = left-attach_msis a.fvd (msi_interrupts a) a.requests a.irq msi held msi-fresh

detached : (a : Answers) (held : List Resource) → left (interrupts a held) (detach a) ≡ some held
detached a held =
    left-detach_msis a.fvd (msi_interrupts a) a.requests a.irq msi [] held (few a) msi-fresh
      (λ j. tt)

-- Detaching, and what is done after it.
detach-left :
    (a : Answers) (held : List Resource) (rest : List Act)
    → left (interrupts a held) (detach a ++ rest) ≡ left held rest
detach-left a held rest =
    replay-append ledger (some (interrupts a held)) (detach a) rest
    ∙ rw
        (left-detach_msis a.fvd (msi_interrupts a) a.requests a.irq msi [] held (few a) msi-fresh
          (λ j. tt))
        refl

post_init_failed-left :
    (a : Answers) → left (mapped a) (err_pci_post_init a) ≡ some (msi_mode ∷ ddr ∷ [])
post_init_failed-left a =
    replay-append ledger (some (mapped a)) (give_each 35 (map_device_memory a) 6 0) _
    ∙ rw
        (left-give_each 35 (map_device_memory a) 6 0 []
          (pci_regions ∷ msi_mode ∷ pci_device ∷ ddr ∷ []) (λ j. tt))
        refl

msi_behind :
    (es : List Resource)
    → Differs msi_mode es
    → remove msi_mode (es ++ pci_regions ∷ msi_mode ∷ pci_device ∷ ddr ∷ [])
      ≡ some (es ++ pci_regions ∷ pci_device ∷ ddr ∷ [])
msi_behind es differ =
    rw
      (
        sym (append_assoc es (pci_regions ∷ []) (msi_mode ∷ pci_device ∷ ddr ∷ [])),
        sym (append_assoc es (pci_regions ∷ []) (pci_device ∷ ddr ∷ [])),
      )
      (remove_behind msi_mode (es ++ pci_regions ∷ []) (pci_device ∷ ddr ∷ [])
        (Differs-append msi_mode es (pci_regions ∷ []) differ (refl, tt)))

removed-left :
    (a : Answers)
    → left (mapped a) (
        give msi_mode
        ∷ (give_each 35 (map_device_memory a) 6 0
            ++ give ddr ∷ give pci_regions ∷ give pci_device ∷ []))
      ≡ some []
removed-left a =
    let rest : List Act =
      give_each 35 (map_device_memory a) 6 0
      ++ give ddr ∷ give pci_regions ∷ give pci_device ∷ [] in
    ap (λ o. replay ledger o rest)
      (msi_behind (each 35 (map_device_memory a) 6 0)
        (each-Differs 35 31 0 (map_device_memory a) 6 0 refl))
    ∙ replay-append ledger (some (bars a (pci_regions ∷ pci_device ∷ ddr ∷ [])))
        (give_each 35 (map_device_memory a) 6 0) _
    ∙ rw
        (left-give_each 35 (map_device_memory a) 6 0 [] (pci_regions ∷ pci_device ∷ ddr ∷ [])
          (λ j. tt))
        refl

pub left-step :
    (held held' : List Resource) (xs ys : List Act)
    → left held xs ≡ some held'
    → left held (xs ++ ys) ≡ left held' ys
left-step held held' xs ys e = replay-append ledger (some held) xs ys ∙ rw (e) refl

-- What a probe and the exit leave in the end: nothing, or the MSI mode and what was there.
abbrev pub kept : Result ℕ → List Resource
kept (ok n) = []
kept (err e) = msi_mode ∷ ddr ∷ []

-- The end of a probe that succeeds, with `more` taken and `last` given back besides.
probed-left :
    (a : Answers)
    → left (interrupts a (mapped a)) (
        detach a
        ++ (give msi_mode
            ∷ (give_each 35 (map_device_memory a) 6 0
                ++ give ddr ∷ give pci_regions ∷ give pci_device ∷ [])))
      ≡ some []
probed-left a = detach-left a (mapped a) _ ∙ removed-left a

no_memory-left :
    (a : Answers)
    → left (mapped a) ((attach a ++ detach a) ++ err_pci_post_init a) ≡ some (msi_mode ∷ ddr ∷ [])
no_memory-left a =
    left-step (mapped a) (mapped a) (attach a ++ detach a) (err_pci_post_init a) (
      left-step (mapped a) (interrupts a (mapped a)) (attach a) (detach a)
        (attach-left a (mapped a))
      ∙ detached a (mapped a))
    ∙ post_init_failed-left a

-- The rest of the exit, after the controller, the platform device and the sysfs group.
abbrev last : Answers → List Act
last a =
    detach a
    ++ (give msi_mode
        ∷ (give_each 35 (map_device_memory a) 6 0
            ++ give ddr ∷ give pci_regions ∷ give pci_device ∷ []))

-- A probe that takes `xs` and then the group, and an exit that gives that back first.
there-left :
    (a : Answers) (more : List Resource) (xs exit : List Act)
    → left (interrupts a (mapped a)) xs ≡ some (more ++ interrupts a (mapped a))
    → left (sysfs_group ∷ (more ++ interrupts a (mapped a))) exit
      ≡ left (interrupts a (mapped a)) (last a)
    → left (mapped a) (((attach a ++ xs) ++ take sysfs_group ∷ []) ++ exit) ≡ some []
there-left a more xs exit taken given_back =
    let all : List Resource = more ++ interrupts a (mapped a) in
    left-step (mapped a) (sysfs_group ∷ all) ((attach a ++ xs) ++ take sysfs_group ∷ []) exit (
      left-step (mapped a) all (attach a ++ xs) (take sysfs_group ∷ []) (
        left-step (mapped a) (interrupts a (mapped a)) (attach a) xs (attach-left a (mapped a))
        ∙ taken))
    ∙ given_back
    ∙ probed-left a

plain-left :
    (a : Answers)
    → left (mapped a) (
        ((attach a ++ take dma_ctl ∷ []) ++ take sysfs_group ∷ [])
        ++ give dma_ctl ∷ give sysfs_group ∷ last a)
      ≡ some []
plain-left a =
    there-left a (dma_ctl ∷ []) (take dma_ctl ∷ []) (give dma_ctl ∷ give sysfs_group ∷ last a) refl
      refl

fvd-left :
    (a : Answers)
    → a.bus.platform ≡ true
    → ((n : ℕ) → a.bus.valid n ≡ true)
    → is_zero (bifrost_fvd_init a.bus).1 ≡ true
    → left (mapped a) (
        ((attach a ++ take dma_ctl ∷ (bifrost_fvd_init a.bus).0) ++ take sysfs_group ∷ [])
        ++ give dma_ctl ∷ give platform_device ∷ give sysfs_group ∷ last a)
      ≡ some []
fvd-left a platform valid started =
    there-left a (platform_device ∷ dma_ctl ∷ []) (take dma_ctl ∷ (bifrost_fvd_init a.bus).0)
      (give dma_ctl ∷ give platform_device ∷ give sysfs_group ∷ last a)
      (fvd_init-left a.bus (dma_ctl ∷ interrupts a (mapped a)) platform valid ∙ rw (started) refl)
      refl

fvd_failed-left :
    (a : Answers)
    → a.bus.platform ≡ true
    → ((n : ℕ) → a.bus.valid n ≡ true)
    → is_zero (bifrost_fvd_init a.bus).1 ≡ false
    → left (mapped a) (
        (attach a ++ take dma_ctl ∷ ((bifrost_fvd_init a.bus).0 ++ give dma_ctl ∷ detach a))
        ++ err_pci_post_init a)
      ≡ some (msi_mode ∷ ddr ∷ [])
fvd_failed-left a platform valid failed =
    left-step (mapped a) (mapped a)
      (attach a ++ take dma_ctl ∷ ((bifrost_fvd_init a.bus).0 ++ give dma_ctl ∷ detach a))
      (err_pci_post_init a)
      (left-step (mapped a) (interrupts a (mapped a)) (attach a)
          (take dma_ctl ∷ ((bifrost_fvd_init a.bus).0 ++ give dma_ctl ∷ detach a))
          (attach-left a (mapped a))
        ∙ left-step (dma_ctl ∷ interrupts a (mapped a)) (dma_ctl ∷ interrupts a (mapped a))
            (bifrost_fvd_init a.bus).0 (give dma_ctl ∷ detach a)
            (fvd_init-left a.bus (dma_ctl ∷ interrupts a (mapped a)) platform valid
              ∙ rw (failed) refl)
        ∙ detached a (mapped a))
    ∙ post_init_failed-left a

-- The exit, when the controller is set.
unfoldable pub loaded : Answers → List Act
loaded a = give dma_ctl ∷ bifrost_pci_remove a

pub with_bars-left :
    (a : Answers)
    → is_zero a.create_group ≡ true
    → a.bus.platform ≡ true
    → ((n : ℕ) → a.bus.valid n ≡ true)
    → left (mapped a) (with_exit (with_bars a) (loaded a)) ≡ some (kept (with_bars a).1)
unfolding with_bars bifrost_pci_probe_post_init with_post_init with_dma loaded bifrost_pci_remove
    bifrost_fvd_exit
with_bars-left a group platform valid = elim (Bool-cases a.dma_memory) [
  | inr no_memory ↦ rw (no_memory) (no_memory-left (record a { dma_memory = false }))
  | inl memory ↦ elim (Bool-cases a.fvd) [
    | inr plain ↦
        rw (memory, plain, group) (plain-left (record a { fvd = false; dma_memory = true }))
    | inl fvd ↦ elim (Bool-cases (is_zero (bifrost_fvd_init a.bus).1)) [
      | inl started ↦
          rw (memory, fvd, started, group)
            (fvd-left (record a { fvd = true; dma_memory = true }) platform valid started)
      | inr failed ↦
          rw (memory, fvd, failed)
            (fvd_failed-left (record a { fvd = true; dma_memory = true }) platform valid failed)
    ]
  ]
]
