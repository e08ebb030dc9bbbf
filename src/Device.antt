-- ===== src/Device.antt =====
-- `struct device_memory` and `struct bifrost_device` of bifrost/bifrost.h, and what the FPGA is to
-- the driver: memory-mapped words that are read and written.
use bifrost_module.Base.{ℕ, Bool, Option, List}
use bifrost_module.Stats.{Stats}
use bifrost_module.Dma.{Ctl}
use bifrost_module.Events.{Handle}

-- The accesses of the kernel to mapped memory, `ioread16` to `iowrite32`. The hardware's state is
-- any type: a read may change it.
pub record Io (Hw : Type 0) : Type 0 where
  pub ioread16 : Hw → ℕ → ℕ × Hw
  pub ioread32 : Hw → ℕ → ℕ × Hw
  pub iowrite16 : Hw → ℕ → ℕ → Hw
  pub iowrite32 : Hw → ℕ → ℕ → Hw

-- Which functions `rd`, `wr` and `mset` point to: those of bifrost_pci.c or of bifrost_membus.c.
pub data Accessors : Type 0 where
  pci membus : Accessors

-- `addr` is where the memory is mapped; `handle` is always the memory itself.
pub record Memory : Type 0 where
  pub bar : ℕ
  pub enabled : Bool
  pub addr_bus : ℕ
  pub size : ℕ
  pub flags : ℕ
  pub addr : ℕ
  pub accessors : Accessors

-- `regb_dma` is the index in `regb` of the memory that it points to.
pub record Device : Type 0 where
  pub handles : List Handle
  pub stats : Stats
  pub cdev_initialized : Bool
  pub regb : ℕ → Memory
  pub regb_dma : ℕ
  pub dma_ctl : Option Ctl
  pub membus : Bool
