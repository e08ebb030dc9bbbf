-- ===== src/Irq/Tests.antt =====
-- The interrupt services at concrete inputs.
use bifrost_module.Base.{ℕ, ◌≡◌, true, none, [], ◌∷◌}
use bifrost_module.Stats.{zeroed}
use bifrost_module.Device.{Io, Accessors, Device}
use bifrost_module.Regs.{membus_read_device_memory}
use bifrost_module.Irq.{fvd_irq1_service, read}
use bifrost_module.Irq.Sources.{sources, fvd_irq1_service-sources}

-- The hardware is a memory, and an access leaves it alone.
abbrev same_word : Io ℕ
same_word = record {
  ioread16 = λ w a. (w, w);
  ioread32 = λ w a. (w, w);
  iowrite16 = λ w a v. v;
  iowrite32 = λ w a v. v;
}

abbrev board : Device
board = record {
  handles = [];
  stats = zeroed;
  cdev_initialized = true;
  regb = λ b. record {
    bar = b;
    enabled = true;
    addr_bus = 0;
    size = 4096;
    flags = 0;
    addr = 0;
    accessors = Accessors.membus;
  };
  regb_dma = 0;
  dma_ctl = none;
  membus = true;
}

-- HSI and the digital inputs are pending.
fvd_irq1_service-sources_example :
    sources (fvd_irq1_service same_word board 9 0x220).1 ≡ 0x02 ∷ 0x08 ∷ []
unfolding read membus_read_device_memory
fvd_irq1_service-sources_example = fvd_irq1_service-sources same_word board 9 0x220
