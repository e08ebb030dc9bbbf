-- ===== src/Lib.antt =====
-- The FLIR kernel modules of this repository, as a model and theorems about it: the driver `bifrost`
-- of an FPGA on PCIe or on a memory bus (bifrost/), and the driver `animal-i2c` that gives user
-- space I2C, with its simulator (animal-i2c/).
--
-- The parts and how they interact. A user opens the character device (bifrost/bifrost_cdev.c) and
-- gets a handle with a queue of events. Through the device it accesses the registers of the FPGA,
-- which is mapped either by bifrost/bifrost_pci.c or by bifrost/bifrost_membus.c, and starts DMA
-- transfers. The DMA engine (bifrost/bifrost_dma.c) gives a request to an idle channel or lets it
-- wait; the interrupt at a request's end starts the next one, and the device delivers an event to
-- the handle whose address is the request's cookie. The interrupt services of the memory bus create
-- the other events. An interrupt handler may not wait, so it hands its event to a work queue
-- (bifrost/bifrost_main.c), whose thread delivers it. The I2C simulator turns each transfer on its
-- adapter into an event, which a program in user space takes and answers while the caller waits. The
-- driver animal-i2c gives each user a handle with an adapter, a client address and at times a GPIO
-- that selects the chip, and calls the I2C core, behind which such an adapter stands, under the lock
-- of the adapter.
--
-- The files:
--   Base and Base/: tests, lists, arrays, return values, and the bits of words.
--   Stats: `struct bifrost_stats` (bifrost/bifrost.h) and add_stats (bifrost/bifrost_dma.c).
--   Dma and Dma/: bifrost/bifrost_dma.c, each function under its name; Dma.Ctl is `struct dma_ctl`.
--     Dma/Smp has the pieces of start_dma_xfer and dma_done between which other processors may run.
--   Events and Events/: the handles, event queues and event delivery of bifrost/bifrost_cdev.c.
--   Device: `struct device_memory` and `struct bifrost_device` (bifrost/bifrost.h), and the interface
--     of the mapped hardware.
--   Regs and Regs/: check_bar_access, do_read_regb, do_write_regb, do_modify_regb and the repeated
--     accesses of bifrost_unlocked_ioctl (bifrost/bifrost_cdev.c), over the accessors of
--     bifrost/bifrost_pci.c and bifrost/bifrost_membus.c.
--   UserDma and UserDma/: prepare_dma_buffer, finish_dma_buffer and, in UserDma/Begin,
--     do_dma_start_xfer (bifrost/bifrost_cdev.c).
--   Irq and Irq/: the interrupt services of bifrost/bifrost_membus.c; fvd_irq1_service is
--     FVDIRQ1Service, and so on.
--   Sdram and Sdram/: WriteSDRAM, ReadSDRAM and do_membus_xfer of bifrost/bifrost_membus.c.
--   Usim and Usim/: animal-i2c/i2c_usim.c, each function under its name; ioc_get_event and
--     ioc_put_event are the two commands of handle_i2c_usim_ioctl.
--   Cdev and Cdev/: bifrost_do_xfer and bifrost_unlocked_ioctl (bifrost/bifrost_cdev.c), over the
--     parts above. Cdev/Codes has the numbers of the commands (bifrost/bifrost_api.h).
--   Animal and Animal/: animal-i2c/i2c_main.c; do_animal_ioctl has a function for each command or
--     group of commands. What it asks of the kernel is a list of actions.
--   Memories and Memories/: how `regb` is mapped and unmapped in bifrost/bifrost_pci.c and
--     bifrost/bifrost_membus.c.
--   Pci and Pci/: the MSI handlers and their table (Pci/Attach), bifrost_dma_chan_start,
--     bifrost_dma_init, pcie_set_mps and pcie_set_ext_tag (Pci/Config), and the probe and removal
--     (Pci/Probe) of bifrost/bifrost_pci.c.
--   Platform and Platform/: bifrost/bifrost_platform.c.
--   Sysfs and Sysfs/: the sysfs attributes of bifrost/bifrost_pci.c.
--   Work and Work/: the work queue of bifrost/bifrost_main.c, between the interrupt handlers and
--     bifrost_create_event.
--   Startup and Startup/: the initialisation and the exit of the modules, as the resources that they
--     take and give back; Startup/BifrostInit is bifrost_init with bifrost_membus_init,
--     bifrost_fvd_init and bifrost_cdev_init, Startup/AnimalInit is animal_init, Startup/UsimInit is
--     i2c_usim_init.
-- The file Tests of a part has the theorems at concrete inputs.
--
-- How the code is translated. State is passed explicitly. A function under a lock is one step, and
-- an interleaving is a sequence of steps (Dma/History, Dma/Smp, Events/Delivery, Usim/History,
-- Work/Schedule). In Dma/History an operation of the DMA engine runs to its end, with the call of
-- `start_xfer` after its locked section; Dma/Smp lets others run in between. Words of w bits are
-- natural numbers with the wrap-around written out; a C `int` result is `ok` or `err`. The kernel's
-- answers, such as memory, copies from and to user space, times and signals, are arguments: a
-- theorem holds for all of them that it does not restrict. The hardware is any state with functions
-- that read and write words (Device.Io). A transfer of the simulator takes as an argument what all
-- the others do while it waits. No function needs fuel: `ffs` looks at the 32 bits of the bitmap,
-- the search for a channel runs over `num_ch`, and all other loops run over lists.
--
-- Not modelled: what bifrost_platform.c does on kernels before 5.4; the text that /proc, the seq files
-- and sysfs print; the numbers of the commands of animal-i2c; and cmemk/, a copy of the memory manager
-- of Texas Instruments.
pub mod Base
pub mod Stats
pub mod Dma
pub mod Events
pub mod Device
pub mod Regs
pub mod Usim
pub mod UserDma
pub mod Irq
pub mod Sdram
pub mod Animal
pub mod Startup
pub mod Memories
pub mod Pci
pub mod Platform
pub mod Sysfs
pub mod Work
pub mod Cdev
