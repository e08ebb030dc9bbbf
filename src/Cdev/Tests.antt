-- ===== src/Cdev/Tests.antt =====
-- Runs of the ioctl of the character device, and its theorem at a concrete input.
use bifrost_module.Base.{
  ℕ, zero, suc, ◌+◌, ◌*◌, ◌%◌, ◌^◌, ◌/◌, ◌≡◌, refl, true, false, none, some, [], ◌∷◌, ok,
}
use bifrost_module.Stats.{Arch, zeroed}
use bifrost_module.Events.{Handle, Event, Payload, dequeue_event}
use bifrost_module.Device.{Io, Accessors}
use bifrost_module.UserDma.{Direction}
use bifrost_module.Sdram.{Bursts, do_membus_xfer}
use bifrost_module.Cdev.{
  Copies, Driver, Begin, dispatch, bifrost_unlocked_ioctl, dequeue, start_dma, event, Command,
  Given,
}
use bifrost_module.Cdev.Codes.{Macro, Argument, Ioc}
use bifrost_module.Cdev.Users.{KeepsOthers, bifrost_unlocked_ioctl-Others}

abbrev arch : Arch
arch = record { ulong = 2 ^ 32; do_div = λ a b. a / b }

-- Hardware that does nothing, and copies to user space that leave 3 bytes.
abbrev quiet : Io ℕ
quiet = record {
  ioread16 = λ hw addr. (0, hw);
  ioread32 = λ hw addr. (0, hw);
  iowrite16 = λ hw addr value. hw;
  iowrite32 = λ hw addr value. hw;
}

abbrev bursts : Bursts ℕ
bursts = record {
  ioread16_rep = λ hw port buffer count. hw;
  iowrite16_rep = λ hw port buffer count. hw;
}

abbrev copies : Copies ℕ
copies = record {
  kcalloc = λ hw size. (some 0x9000, hw);
  copy_from_user = λ hw dst src size. (0, hw);
  copy_to_user = λ hw dst src size. (3, hw);
  kfree = λ hw buf. hw;
}

abbrev irq : Event
irq = record { type = 1; payload = Payload.irq 4 0 0 0; received = 5; forwarded = 0 }

abbrev user : (addr : ℕ) → Handle
user a = record {
  addr = a;
  event_enable_mask = 1;
  irq_forwarding_mask = 4;
  event_list = irq ∷ [];
  event_list_count = 1;
}

abbrev driver : Driver ℕ
driver = record {
  hw = 0;
  device = record {
    handles = user 7 ∷ user 8 ∷ [];
    stats = zeroed;
    cdev_initialized = true;
    regb = λ n. record {
      bar = n;
      enabled = true;
      addr_bus = 0;
      size = 0x1000;
      flags = 0;
      addr = 0x400;
      accessors = Accessors.membus;
    };
    regb_dma = 0;
    dma_ctl = none;
    membus = true;
  };
  ctl = record {
    list = [];
    num_ch = 1;
    idle_bitmap = 1;
    ch = λ n. record { irq = 0; in_progress = none };
  };
  count = 0;
  saved = record { size = 0; phy = 0; virt = none };
  xfers = [];
}

abbrev begin : Begin
begin = record {
  answers = record {
    memory = true;
    coherent = none;
    copied_in = true;
    bus = 0;
    completed = true;
    copied_out = true;
  };
  frame = 0;
  now = 0;
}

-- The event is given with the time at which it was taken.
dequeue_run :
    (dispatch quiet bursts copies false driver 8 (dequeue 9 true)).given
    ≡ event (record irq { forwarded = 9 })
unfolding dispatch dequeue_event
dequeue_run = refl

-- The bytes that were not copied to user space are the result of a transfer up.
transfer_run :
    (dispatch quiet bursts copies false driver 8 (
      start_dma false Direction.up_stream
        (some (record { system = 0x100; device = 0; size = 8 }))
        begin)).result
    ≡ ok 3
unfolding dispatch do_membus_xfer
transfer_run = refl

bifrost_unlocked_ioctl-Others_example :
    KeepsOthers
      (record driver.device { stats = record zeroed { ioctls = 1 } })
      (bifrost_unlocked_ioctl quiet bursts copies false arch driver 8
        (dequeue 9 true)).driver.device
      8
bifrost_unlocked_ioctl-Others_example =
    bifrost_unlocked_ioctl-Others quiet bursts copies false arch driver 8 (dequeue 9 true)

-- The macros of most machines: 2 bits of direction, 14 of size, 8 of magic and 8 of number.
abbrev dir_bits : Macro → ℕ
dir_bits Macro.io = 0
dir_bits Macro.iow = 1
dir_bits Macro.ior = 2
dir_bits Macro.iowr = 3

abbrev of_bits : ℕ → Macro
of_bits zero = Macro.io
of_bits (suc zero) = Macro.iow
of_bits (suc (suc zero)) = Macro.ior
of_bits _ = Macro.iowr

-- Sizes on a machine of 32 bits.
abbrev size_of : Argument → ℕ
size_of Argument.nothing = 0
size_of Argument.bifrost_info = 3
size_of Argument.bifrost_access = 12
size_of Argument.bifrost_access_range = 16
size_of Argument.bifrost_modify = 20
size_of Argument.bifrost_dma_transfer = 12
size_of Argument.bifrost_event = 36
size_of Argument.u32 = 4

abbrev usual : Ioc
usual = record {
  ioc = λ m magic n a. dir_bits m * 2 ^ 30 + size_of a * 2 ^ 16 + magic * 2 ^ 8 + n;
  nr_of = λ cmd. cmd % 2 ^ 8;
  macro_of = λ cmd. of_bits (cmd / 2 ^ 30);
}

-- A transfer up whose data can be copied.
abbrev whole_copies : Copies ℕ
whole_copies = record copies { copy_to_user = λ hw dst src size. (0, hw) }

abbrev up_transfer : Command
up_transfer =
    start_dma false Direction.up_stream (some (record { system = 0x100; device = 0; size = 8 }))
      begin

given_whole :
    (dispatch quiet bursts whole_copies false driver 8 up_transfer).given ≡ Given.data_at 0x100 8
unfolding dispatch do_membus_xfer
given_whole = refl
