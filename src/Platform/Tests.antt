-- ===== src/Platform/Tests.antt =====
-- A detected board.
use Prim.Native.String.{String}
use text.Mathlib.Text.{◌==◌}
use bifrost_module.Base.{ℕ, ◌<◌, ◌≡◌, ◌↔◌, refl, Bool, true, false, none, [], ok}
use bifrost_module.Stats.{zeroed}
use bifrost_module.Device.{Accessors, Memory, Device}
use bifrost_module.Regs.{check_bar_access, wr_access}
use bifrost_module.Pci.{Platform, dma_bar}
use bifrost_module.Platform.{platform_rocky, platform_fvd, detected}
use bifrost_module.Platform.Registers.{dma_bar-check_bar_access}

abbrev evander_board : String → Bool
evander_board name = name == "fsl,imx6dl"

abbrev memory : ℕ → Memory
memory n = record {
  bar = n;
  enabled = true;
  addr_bus = 0;
  size = 0x1000;
  flags = 0;
  addr = 0x10000;
  accessors = Accessors.pci;
}

abbrev device : Device
device = record {
  handles = [];
  stats = zeroed;
  cdev_initialized = true;
  regb = memory;
  regb_dma = 2;
  dma_ctl = none;
  membus = false;
}

evander_found : detected evander_board ≡ Platform.evander
unfolding detected
evander_found = refl

dma_bar-check_bar_access_example :
    (check_bar_access
        (platform_fvd evander_board)
        device
        (dma_bar (detected evander_board))
        wr_access
        0x118
      ≡ ok 0)
    ↔ ((platform_rocky evander_board ≡ true) × (true ≡ true) × (0x118 < 0x1000))
dma_bar-check_bar_access_example = dma_bar-check_bar_access evander_board device 0x118 refl
