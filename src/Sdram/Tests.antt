-- ===== src/Sdram/Tests.antt =====
-- An SDRAM transfer on a bus that logs its accesses.
use bifrost_module.Base.{
  ℕ, ◌+◌, ◌*◌, ◌/◌, ◌^◌, ◌<◌, ◌≡◌, refl, true, none, List, [], ◌∷◌, ok, arith,
}
use bifrost_module.Stats.{zeroed}
use bifrost_module.Device.{Io, Accessors, Device}
use bifrost_module.Regs.{membus_write_device_memory}
use bifrost_module.UserDma.{Direction}
use bifrost_module.Sdram.{Bursts, do_membus_xfer}
use bifrost_module.Sdram.Address.{do_membus_xfer_down}

-- Each access with its address and value, the last one first.
abbrev log : Io (List (ℕ × ℕ))
log = record {
  ioread16 = λ l a. (0, l);
  ioread32 = λ l a. (0, l);
  iowrite16 = λ l a v. (a, v) ∷ l;
  iowrite32 = λ l a v. (a, v) ∷ l;
}

abbrev words : Bursts (List (ℕ × ℕ))
words = record {
  ioread16_rep = λ l port buffer count. (port, count) ∷ l;
  iowrite16_rep = λ l port buffer count. (port, count) ∷ l;
}

abbrev board : Device
board = record {
  handles = [];
  stats = zeroed;
  cdev_initialized = true;
  regb = λ b. record {
    bar = b;
    enabled = true;
    addr_bus = 0;
    size = 4096;
    flags = 0;
    addr = 0x10000 * b;
    accessors = Accessors.membus;
  };
  regb_dma = 0;
  dma_ctl = none;
  membus = true;
}

do_membus_xfer_down_example :
    let set = λ (h : List (ℕ × ℕ)) (offset value : ℕ).
      membus_write_device_memory log h (board.regb 0) offset value in
    (lo : ℕ) × (hi : ℕ) × (lo < 2 ^ 16)
    × (hi < 2 ^ 15)
    × (0x12344 ≡ hi * 2 ^ 16 + lo)
    × (do_membus_xfer log words board []
          (record { system = 0x500; device = 0x12344; size = 64 })
          Direction.down_stream
        ≡ ((0x10000, 64 / 2) ∷ set (set (set [] 1 0) 0 lo) 1 (2 ^ 15 + hi), ok 0))
do_membus_xfer_down_example =
    do_membus_xfer_down log words board [] (record { system = 0x500; device = 0x12344; size = 64 })
      refl (omega arith)
