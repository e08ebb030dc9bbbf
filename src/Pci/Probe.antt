-- ===== src/Pci/Probe.antt =====
-- bifrost_pci_probe, bifrost_pci_probe_post_init, bifrost_pci_remove and bifrost_pci_exit of
-- bifrost/bifrost_pci.c, on kernels from 5.4 on, as the resources that they take and give back.
pub mod PostInit
pub mod Stored
pub mod Left
pub mod Twice
use bifrost_module.Base.{
  ℕ, Bool, true, false, List, [], ◌∷◌, ◌++◌, ◌&&◌, ltb, ◌==◌, if◌then◌else◌, Result, ok, err, eperm,
  enodev,
}
use bifrost_module.Startup.{Resource, resource, Act, Trace, take, give, same, after, is_zero, is_ok}
use bifrost_module.Startup.Each.{take_each, give_each}
use bifrost_module.Startup.BifrostInit
use bifrost_module.Startup.BifrostInit.{bifrost_fvd_init, bifrost_fvd_exit, count}
use bifrost_module.Pci.Attach.{msi, bifrost_attach_msis_to_irq, bifrost_detach_msis}

abbrev pub pci_device : Resource
pci_device = resource 30 0

abbrev pub msi_mode : Resource
msi_mode = resource 31 0

abbrev pub pci_regions : Resource
pci_regions = resource 32 0

abbrev pub dma_ctl : Resource
dma_ctl = resource 33 0

abbrev pub sysfs_group : Resource
sysfs_group = resource 34 0

-- The mapping at `ddr.addr` of the device, which no code sets.
abbrev pub ddr : Resource
ddr = resource 36 0

-- The kernel's answers. `size` and `iomap` are those of the BARs, whose mappings are of kind 35;
-- `irq` is the interrupt of the device and `requests` the answers of request_irq by vector; `bus` has
-- the answers to bifrost_fvd_init.
pub record Answers : Type 0 where
  pub fvd : Bool
  pub enable_device : Result ℕ
  pub set_readrq : Result ℕ
  pub set_mps : Result ℕ
  pub set_ext_tag : Result ℕ
  pub enable_msi : Result ℕ
  pub request_regions : Result ℕ
  pub size : ℕ → ℕ
  pub iomap : ℕ → Bool
  pub irq : ℕ
  pub requests : ℕ → Result ℕ
  pub dma_memory : Bool
  pub bus : BifrostInit.Answers
  pub create_group : Result ℕ

abbrev pub map_device_memory : Answers → ℕ → Bool
map_device_memory a n = if a.size n == 0 then false else a.iomap n

abbrev pub msi_interrupts : Answers → ℕ
msi_interrupts a = if a.fvd then 1 else 32

abbrev pub attach : Answers → List Act
attach a = (bifrost_attach_msis_to_irq a.fvd (msi_interrupts a) a.requests a.irq msi).1

abbrev pub detach : Answers → List Act
detach a =
    (bifrost_detach_msis
      (bifrost_attach_msis_to_irq a.fvd (msi_interrupts a) a.requests a.irq msi).0).1

-- `set` says whether `dma_ctl` of the device is set. What is done, and whether it is set after it: the
-- pointer is left as it is. The loop of disable_dma_ch changes only the controller.
abbrev pub bifrost_dma_cleanup : (set : Bool) → List Act × Bool
bifrost_dma_cleanup true = (give dma_ctl ∷ [], true)
bifrost_dma_cleanup false = ([], false)

-- The controller is set when bifrost_fvd_init is called.
abbrev pub fvd_done : Answers → Trace → Trace
fvd_done a (acts, rc) =
    if is_zero rc
    then (acts, ok 0)
    else (acts ++ ((bifrost_dma_cleanup true).0 ++ detach a), err eperm)

unfoldable pub with_dma : Answers → Trace
with_dma a = if a.fvd then fvd_done a (bifrost_fvd_init a.bus) else ([], ok 0)

unfoldable pub bifrost_pci_probe_post_init : Answers → Trace
unfolding with_dma
bifrost_pci_probe_post_init a =
    after (attach a)
      (if a.dma_memory then after (take dma_ctl ∷ []) (with_dma a) else (detach a, err eperm))

-- The labels at the end of bifrost_pci_probe.
abbrev pub err_pci_request : List Act
err_pci_request = give pci_device ∷ []

abbrev pub err_pci_iomap_regb : List Act
err_pci_iomap_regb = give pci_regions ∷ err_pci_request

abbrev pub err_pci_post_init : Answers → List Act
err_pci_post_init a = give_each 35 (map_device_memory a) 6 0 ++ err_pci_iomap_regb

abbrev pub err_pci_sysfs : Answers → List Act
err_pci_sysfs a = give sysfs_group ∷ err_pci_post_init a

unfoldable pub with_post_init : Answers → Trace
with_post_init a =
    if is_zero a.create_group then (take sysfs_group ∷ [], ok 0) else (err_pci_sysfs a, err enodev)

abbrev pub post_init_done : Answers → Trace → Trace → Trace
post_init_done a (acts, rc) next =
    if is_zero rc then after acts next else (acts ++ err_pci_post_init a, err enodev)

unfoldable pub with_bars : Answers → Trace
unfolding bifrost_pci_probe_post_init with_post_init
with_bars a = post_init_done a (bifrost_pci_probe_post_init a) (with_post_init a)

unfoldable pub with_pci_regions : Answers → Trace
unfolding with_bars
with_pci_regions a = after (take_each 35 (map_device_memory a) 6 0) (
    if ltb (count (map_device_memory a) 6 0) 2
    then (err_pci_iomap_regb, err enodev)
    else with_bars a)

unfoldable pub with_msi : Answers → Trace
unfolding with_pci_regions
with_msi a =
    if is_zero a.request_regions
    then after (take pci_regions ∷ []) (with_pci_regions a)
    else (err_pci_request, err enodev)

unfoldable pub with_pci_device : Answers → Trace
unfolding with_msi
with_pci_device a =
    if is_zero a.set_readrq && is_zero a.set_mps && is_zero a.set_ext_tag
    then (if is_ok a.enable_msi then after (take msi_mode ∷ []) (with_msi a) else ([], err enodev))
    else ([], err enodev)

unfoldable pub bifrost_pci_probe : Answers → Trace
unfolding with_pci_device
bifrost_pci_probe a =
    if is_zero a.enable_device
    then after (take pci_device ∷ []) (with_pci_device a)
    else ([], err enodev)

unfoldable pub bifrost_pci_remove : Answers → List Act
unfolding bifrost_fvd_exit
bifrost_pci_remove a =
    (if a.fvd then bifrost_fvd_exit else [])
    ++ (give sysfs_group
        ∷ (detach a
            ++ (give msi_mode
                ∷ (give_each 35 (map_device_memory a) 6 0
                    ++ give ddr ∷ give pci_regions ∷ give pci_device ∷ []))))

-- Whether `dma_ctl` of the device is set, after some acts: bifrost_dma_init sets it to the controller
-- that it takes, and only bifrost_dma_cleanup gives one back.
unfoldable pub stored : List Act → Bool → Bool
stored [] set = set
stored (take r ∷ acts) set = stored acts (if same r dma_ctl then true else set)
stored (give r ∷ acts) set =
    stored acts (if same r dma_ctl then (bifrost_dma_cleanup set).1 else set)

-- bifrost_pci_exit after a probe that succeeded; its pci_unregister_driver removes the device.
unfoldable pub unload : Answers → List Act
unfolding bifrost_pci_probe bifrost_pci_remove
unload a = (bifrost_dma_cleanup (stored (bifrost_pci_probe a).0 false)).0 ++ bifrost_pci_remove a
