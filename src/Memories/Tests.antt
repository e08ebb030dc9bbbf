-- ===== src/Memories/Tests.antt =====
-- Devices whose memories are mapped, and the theorems about them there.
use bifrost_module.Base.{
  ℕ, ◌%◌, ◌^◌, ◌<◌, ◌≡◌, refl, ◌↔◌, ◌==◌, if◌then◌else◌, true, false, none, [], ltb, update, ok,
  err,
}
use bifrost_module.Stats.{zeroed}
use bifrost_module.Device.{Io, Accessors, Memory, Device}
use bifrost_module.Regs.{check_bar_access, wr_access}
use bifrost_module.Regs.Access.{Open, writes}
use bifrost_module.Regs.Modify.{operate}
use bifrost_module.Memories.{Resources, pci_bus, membus, setup_io_regions}
use bifrost_module.Memories.Regions.{pci_found, membus_found}
use bifrost_module.Memories.Access.{
  InLedger, regions-InLedger, with_regions, without_regions, with_regions-check_bar_access,
  without_regions-refused,
}

-- BARs 0 to 2 have a size, and 1 cannot be mapped.
abbrev three_bars : Resources
three_bars = record {
  start = λ n. n;
  flags = λ n. 0;
  len = λ n. if ltb n 3 then 0x1000 else 0;
  iomap = λ n. if n == 1 then 0 else 0x10000;
}

abbrev blank : ℕ → Memory
blank n = record {
  bar = 0;
  enabled = false;
  addr_bus = 0;
  size = 0;
  flags = 0;
  addr = 0;
  accessors = Accessors.pci;
}

abbrev fresh : Device
fresh = record {
  handles = [];
  stats = zeroed;
  cdev_initialized = false;
  regb = blank;
  regb_dma = 0;
  dma_ctl = none;
  membus = false;
}

abbrev ram : Io (ℕ → ℕ)
ram = record {
  ioread16 = λ m a. (m a % 2 ^ 16, m);
  ioread32 = λ m a. (m a, m);
  iowrite16 = λ m a v. update m a (v % 2 ^ 16);
  iowrite32 = λ m a v. update m a v;
}

two_mapped : (setup_io_regions (pci_bus three_bars) blank).nbars ≡ 2
unfolding setup_io_regions
two_mapped = refl

regions-InLedger_example :
    InLedger (pci_bus three_bars) (pci_found three_bars) blank
    × InLedger (membus (λ a. a)) (membus_found (λ a. a)) blank
regions-InLedger_example = regions-InLedger three_bars (λ a. a) blank

with_regions-check_bar_access_example :
    (check_bar_access false (with_regions false three_bars fresh) 2 wr_access 8 ≡ ok 0)
    ↔ ((2 < 6) × (pci_found three_bars 2 ≡ true) × Open false false writes 2 × (8 < 0x1000))
with_regions-check_bar_access_example =
    with_regions-check_bar_access false three_bars fresh writes 2 8

without_regions-refused_example :
    (e : ℕ) × (operate ram false
        (λ a. 0)
        (without_regions (pci_bus three_bars) (with_regions false three_bars fresh))
        writes
        2
        8
        1
        0
        0
      ≡ ((λ a. 0), err e))
without_regions-refused_example =
    without_regions-refused ram (pci_bus three_bars) false (λ a. 0)
      (with_regions false three_bars fresh) writes 2 8 1 0 0
