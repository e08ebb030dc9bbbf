-- ===== src/Pci/Tests.antt =====
-- The set-up of the DMA engine, the MSI table and the probe at concrete inputs.
use bifrost_module.Base.{
  ℕ, ◌+◌, ◌≡◌, refl, true, false, none, some, [], ◌==◌, if◌then◌else◌, arith, Result, ok, err,
  ebusy, ◌%◌, ◌++◌, ◌∷◌, ltb, List, ◌⊎◌, ◌<◌, ◌-◌, ◌∙◌, bit_and, bit_and_mask, ◌/◌, ◌^◌, length,
  update,
}
use native.Mathlib.Nat.{mod_self}
use bifrost_module.Stats.{Arch, zeroed}
use bifrost_module.Dma.{Ctl, alloc_dma_ctl, enable_dma_ch}
use bifrost_module.Device.{Io, Accessors, Device}
use bifrost_module.Pci.{
  Platform, map_event_to_msi, map_msi_to_event, bifrost_dma_init, dma_bar, dma_capability,
  dma_status,
}
use bifrost_module.Base.Words.{clear_bit, ffs}
use bifrost_module.Regs.{rd}
use bifrost_module.Startup.{left, with_exit, is_ok}
use bifrost_module.Startup.BifrostInit
use bifrost_module.Pci.Probe
use bifrost_module.Pci.Probe.{bifrost_pci_probe, unload, msi_mode, bifrost_dma_cleanup, ddr, stored}
use bifrost_module.Pci.Probe.Left.{bifrost_pci_probe-left}
use bifrost_module.Pci.Probe.Twice.{bifrost_pci_probe-freed_twice}
use bifrost_module.Pci.Config.{ConfigSpace, pcie_set_mps}
use bifrost_module.Pci.Config.Written.{IsExpress, configured}
use bifrost_module.Pci.Quiet.{bifrost_dma_init-AtRest}
use bifrost_module.Dma.{Req, lookup_chan, find_1st_idle_chan, start_dma_xfer}
use bifrost_module.Dma.History.{Call, starts, run}
use bifrost_module.Dma.Drain.{Interrupt, Ends, AllEnd, AtRest, after, pending}

-- Hardware with three channels, of which the second one is busy.
abbrev three_channels : Io ℕ
three_channels = record {
  ioread16 = λ hw addr. (0, hw);
  ioread32 = λ hw addr. (if addr == 0x50C then 0x73 else 0x2, hw + 1);
  iowrite16 = λ hw addr value. hw;
  iowrite32 = λ hw addr value. hw;
}

abbrev board : Device
board = record {
  handles = [];
  stats = zeroed;
  cdev_initialized = false;
  regb = λ n. record {
    bar = n;
    enabled = true;
    addr_bus = 0;
    size = 0x1000;
    flags = 0;
    addr = 0x400;
    accessors = Accessors.pci;
  };
  regb_dma = 0;
  dma_ctl = none;
  membus = false;
}

round_trip : map_event_to_msi (map_msi_to_event 15) ≡ ok 15
unfolding map_event_to_msi map_msi_to_event ffs
round_trip = refl

capability : rd three_channels 0 (board.regb (dma_bar Platform.rocky)) dma_capability ≡ (0x73, 1)
unfolding rd dma_bar
capability = refl

status : rd three_channels 1 (board.regb (dma_bar Platform.rocky)) dma_status ≡ (0x2, 2)
unfolding rd dma_bar
status = refl

-- On a board with PCIe every second request fails.
abbrev half_granted : ℕ → Result ℕ
half_granted n = if n % 2 == 0 then ok 0 else err ebusy

-- A device with two BARs, of whose interrupts every second one is granted, and without memory for
-- the DMA controller.
abbrev no_controller : Probe.Answers
no_controller = record {
  fvd = false;
  enable_device = ok 0;
  set_readrq = ok 0;
  set_mps = ok 0;
  set_ext_tag = ok 0;
  enable_msi = ok 1;
  request_regions = ok 0;
  size = λ n. if ltb n 2 then 0x1000 else 0;
  iomap = λ n. true;
  irq = 100;
  requests = half_granted;
  dma_memory = false;
  bus = record {
    membus = false;
    memory = true;
    pool = true;
    queue = true;
    mapped = λ n. true;
    platform = true;
    ret = err 1;
    rc = err 1;
    valid = λ n. true;
    request_irq = λ n. ok 0;
    register_driver = ok 0;
    alloc_region = ok 0;
    add_cdev = ok 0;
  };
  create_group = ok 0;
}

bifrost_pci_probe-left_example :
    left (ddr ∷ []) (with_exit (bifrost_pci_probe no_controller) (unload no_controller))
    ≡ some (msi_mode ∷ ddr ∷ [])
unfolding bifrost_pci_probe Probe.with_pci_device Probe.with_msi Probe.with_pci_regions
    Probe.with_bars Probe.bifrost_pci_probe_post_init
bifrost_pci_probe-left_example =
    bifrost_pci_probe-left no_controller refl refl refl refl refl refl refl refl refl (λ n. refl)

-- Hardware with one channel, which is idle.
abbrev one_channel : Io ℕ
one_channel = record {
  ioread16 = λ hw addr. (0, hw);
  ioread32 = λ hw addr. (if addr == 0x50C then 1 else 0, hw + 1);
  iowrite16 = λ hw addr value. hw;
  iowrite32 = λ hw addr value. hw;
}

abbrev one_ctl : Ctl
one_ctl = record {
  list = [];
  num_ch = 1;
  idle_bitmap = 1;
  ch =
      update (λ _. record { irq = 0; in_progress = none }) 0
        (record { irq = 40; in_progress = none });
}

abbrev arm : Arch
arm = record { ulong = 2 ^ 32; do_div = λ n d. n / d }

abbrev small_req : Req
small_req = record {
  src = 1;
  dst = 2;
  len = 64;
  dir = 0;
  ticket = 5;
  cookie = 7;
  ts = 0;
  pwork = none;
}

-- Two requests on one channel.
abbrev two_starts : List Call
two_starts = starts small_req 10 ∷ starts small_req 11 ∷ []

abbrev ending : List Interrupt
ending = record { irq = 40; stop = 20; start = 21 } ∷ []

one_capability : rd one_channel 0 (board.regb (dma_bar Platform.rocky)) dma_capability ≡ (1, 1)
unfolding rd dma_bar
one_capability = refl

one_status : rd one_channel 1 (board.regb (dma_bar Platform.rocky)) dma_status ≡ (0, 2)
unfolding rd dma_bar
one_status = refl

one_set_up : (bifrost_dma_init one_channel Platform.rocky true 40 board 0).0.dma_ctl ≡ some one_ctl
unfolding bifrost_dma_init rd alloc_dma_ctl enable_dma_ch
one_set_up = refl

one_ends : AllEnd arm (run arm one_ctl zeroed two_starts).ctl zeroed ending
unfolding start_dma_xfer find_1st_idle_chan clear_bit ffs lookup_chan
one_ends = ((0, record small_req { ts = 10 }, refl, refl), tt)

bifrost_dma_init-AtRest_example :
    let used = (run arm one_ctl zeroed two_starts).ctl in
    let end = after arm used zeroed ending in
    ((length ending ≡ pending used) × AtRest end)
    ⊎ ((length ending < pending used)
        × (length ending + pending end ≡ pending used)
        × ((irq : ℕ) × Ends end irq))
bifrost_dma_init-AtRest_example =
    bifrost_dma_init-AtRest one_channel Platform.rocky 40 board 0 1 1 2 one_ctl arm zeroed zeroed
      two_starts ending one_capability one_status (omega arith) one_set_up one_ends

-- The configuration space as its device control register alone.
abbrev register : ConfigSpace ℕ
register = record {
  pci_pcie_cap = λ w. 0x40;
  pci_read_config_word = λ w off. (ok 0, w % 2 ^ 16);
  pci_write_config_dword = λ w off v. (v, ok 0);
  is_power_of_2 = λ n. bit_and n (n - 1) == 0;
}

power_is : (k : ℕ) → (bit_and (2 ^ k) (2 ^ k - 1) == 0) ≡ true
power_is k =
    let rest : bit_and (2 ^ k) (2 ^ k - 1) ≡ 0 = bit_and_mask k (2 ^ k) ∙ mod_self (2 ^ k) in
    rw (rest) refl

register-IsExpress : IsExpress register
register-IsExpress = record {
  there = λ w. refl;
  reads = λ w. refl;
  is_word = λ w. omega arith;
  writes = λ w v. refl;
  holds = λ w v fits. omega (arith, fits);
  powers = power_is;
}

-- A device with a payload of 512 bytes is set to one of 128.
configured_example : (pcie_set_mps register 0x2850 128).1 ≡ ok 0
configured_example = (configured register 0x2850 0 register-IsExpress (omega arith)).0

-- An FVD on which an interrupt of bifrost_fvd_init is not granted.
abbrev no_interrupt : Probe.Answers
no_interrupt = record no_controller {
  fvd = true;
  dma_memory = true;
  bus = record no_controller.bus { request_irq = λ n. err ebusy };
}

bifrost_pci_probe-freed_twice_example :
    (is_ok (bifrost_pci_probe no_interrupt).1 ≡ false)
    × (stored (bifrost_pci_probe no_interrupt).0 false ≡ true)
    × (left (ddr ∷ []) (bifrost_pci_probe no_interrupt).0 ≡ some (msi_mode ∷ ddr ∷ []))
    × (left (ddr ∷ []) (
          (bifrost_pci_probe no_interrupt).0
          ++ (bifrost_dma_cleanup (stored (bifrost_pci_probe no_interrupt).0 false)).0)
        ≡ none)
unfolding BifrostInit.bifrost_fvd_init
bifrost_pci_probe-freed_twice_example =
    bifrost_pci_probe-freed_twice no_interrupt refl refl refl refl refl refl refl refl refl
      (λ n. refl) refl refl refl
