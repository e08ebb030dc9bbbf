-- ===== src/Stats.antt =====
-- The driver's statistics, `struct bifrost_stats` of bifrost/bifrost.h, and their update when a DMA
-- transfer ends, `add_stats` of bifrost/bifrost_dma.c.
pub mod Bounds
use bifrost_module.Base.{
  ℕ, suc, ◌+◌, ◌-◌, ◌*◌, ◌/◌, ◌%◌, ◌^◌, ◌≤◌, ◌<◌, max, Bool, false, ◌==◌, if◌then◌else◌,
}

-- The counters are `unsigned long`; the names are the source's.
pub record Stats : Type 0 where
  pub enabled : Bool
  pub opens : ℕ
  pub releases : ℕ
  pub polls : ℕ
  pub reads : ℕ
  pub writes : ℕ
  pub ioctls : ℕ
  pub llseeks : ℕ
  pub procfsreads : ℕ
  pub read_buf : ℕ
  pub write_buf : ℕ
  pub read_b : ℕ
  pub write_b : ℕ
  pub write_speed_avg : ℕ
  pub write_speed_last : ℕ
  pub read_speed_avg : ℕ
  pub read_speed_last : ℕ

-- As `kzalloc` leaves them.
abbrev pub zeroed : Stats
zeroed = record {
  enabled = false;
  opens = 0;
  releases = 0;
  polls = 0;
  reads = 0;
  writes = 0;
  ioctls = 0;
  llseeks = 0;
  procfsreads = 0;
  read_buf = 0;
  write_buf = 0;
  read_b = 0;
  write_b = 0;
  write_speed_avg = 0;
  write_speed_last = 0;
  read_speed_avg = 0;
  read_speed_last = 0;
}

-- What the build and the kernel fix: 2^w for an `unsigned long` of w bits, and the macro `do_div`,
-- whose divisor is 32 bits wide.
pub record Arch : Type 0 where
  pub ulong : ℕ
  pub do_div : ℕ → ℕ → ℕ

abbrev pub nsec_per_sec : ℕ
nsec_per_sec = 1_000_000_000

-- VALHALLA_ADDR_DMA_DIR_UP_STRM_DOWN and VALHALLA_ADDR_DMA_DIR_UP_STRM_UP
abbrev pub dir_strm_down : ℕ
dir_strm_down = 0

abbrev pub dir_strm_up : ℕ
dir_strm_up = 1

-- `u64` speed of a transfer of `len` bytes in `time` ns.
pub xfer_speed : Arch → ℕ → ℕ → ℕ
xfer_speed a len time = a.do_div (len * nsec_per_sec % 2 ^ 64) (time % 2 ^ 32)

-- The running average over `n` transfers. A division by zero, which only a wrapped counter
-- gives, yields 0, as on ARM.
pub average : Arch → ℕ → ℕ → ℕ → ℕ
average a avg n last = (avg * ((n + a.ulong - 1) % a.ulong) % a.ulong / n + last / n) % a.ulong

-- `time` is the bit pattern of an `s64`.
pub add_stats : Arch → Stats → (len dir time : ℕ) → Stats
add_stats a s len dir time =
    if time == 0
    then s
    else (if dir == dir_strm_down
        then record s {
          write_speed_last = speed;
          write_b = (s.write_b + len) % a.ulong;
          write_buf = (s.write_buf + 1) % a.ulong;
          write_speed_avg = average a s.write_speed_avg ((s.write_buf + 1) % a.ulong) speed;
        }
        else (if dir == dir_strm_up
            then record s {
              read_speed_last = speed;
              read_b = (s.read_b + len) % a.ulong;
              read_buf = (s.read_buf + 1) % a.ulong;
              read_speed_avg = average a s.read_speed_avg ((s.read_buf + 1) % a.ulong) speed;
            }
            else s))
  where
    speed : ℕ
    speed = xfer_speed a len time % a.ulong
