-- ===== src/Platform.antt =====
-- The detection of the board, bifrost/bifrost_platform.c on kernels from 5.4 on.
pub mod Registers
mod Tests
use Prim.Native.String.{String}
use bifrost_module.Base.{Bool, true, false, ◌||◌, if◌then◌else◌}
use bifrost_module.Pci.{Platform}

-- `of_machine_is_compatible`: whether the device tree names the board as compatible.
module _ (of_machine_is_compatible : String → Bool) where
  unfoldable pub platform_rocky : Bool
  platform_rocky = of_machine_is_compatible "fsl,imx6q"

  unfoldable pub platform_evander : Bool
  platform_evander = of_machine_is_compatible "fsl,imx6dl"

  unfoldable pub platform_eoco : Bool
  platform_eoco = of_machine_is_compatible "fsl,imx6qp-eoco"

  unfoldable pub platform_ec702 : Bool
  platform_ec702 = of_machine_is_compatible "fsl,imx6qp-ec702"

  unfoldable pub platform_fvd : Bool
  unfolding platform_rocky platform_evander platform_eoco platform_ec702
  platform_fvd = platform_rocky || (platform_evander || (platform_eoco || platform_ec702))

  -- The tests of bifrost_dma_init, in their order.
  unfoldable pub detected : Platform
  unfolding platform_rocky platform_evander platform_eoco platform_ec702
  detected =
      if platform_rocky
      then Platform.rocky
      else (if platform_evander
          then Platform.evander
          else (if platform_eoco
              then Platform.eoco
              else (if platform_ec702 then Platform.ec702 else Platform.unknown)))
