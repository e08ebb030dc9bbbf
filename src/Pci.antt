-- ===== src/Pci.antt =====
-- The interrupts and the DMA registers of bifrost/bifrost_pci.c: the table of MSI handlers, the
-- handlers, the start of a channel and the set-up of the engine.
pub mod Setup
pub mod Quiet
pub mod Config
pub mod Attach
pub mod Probe
mod Tests
use bifrost_module.Base.{
  ℕ, zero, suc, ◌+◌, ◌-◌, ◌%◌, ◌^◌, Bool, true, false, Option, none, some, List, [], ◌∷◌, ◌==◌,
  if◌then◌else◌, bit_and, ffs, Result, ok, err, einval, enomem, update,
}
use bifrost_module.Stats.{Stats, Arch}
use bifrost_module.Dma.{Ctl, Done, Outcome, dma_done, alloc_dma_ctl, enable_dma_ch}
use bifrost_module.Events.{Event, Payload, type_irq, type_dma_done}
use bifrost_module.Device.{Io, Memory, Device}
use bifrost_module.Regs.{wr, rd}

-- `1 << vec` of an `unsigned int`, for a vector below 32.
unfoldable pub map_msi_to_event : (vec : ℕ) → ℕ
map_msi_to_event vec = 2 ^ vec % 2 ^ 32

unfoldable pub map_event_to_msi : (event : ℕ) → Result ℕ
map_event_to_msi event = if ffs event == 0 then err einval else ok (ffs event - 1)

-- What the structure of default_msi_handler holds on the stack, behind the source.
pub record Rest : Type 0 where
  pub value : ℕ
  pub frame_size : ℕ
  pub frame_time : ℕ

-- The event of default_msi_handler, which stores a type and a source; `received` and `forwarded` are
-- filled in later.
unfoldable pub default_msi_event : Rest → (vec : ℕ) → Event
unfolding map_msi_to_event
default_msi_event rest vec = record {
  type = type_irq;
  payload = Payload.irq (map_msi_to_event vec) rest.value rest.frame_size rest.frame_time;
  received = 0;
  forwarded = 0;
}

-- The data of the action is the device, if it is set up: then the handler creates an event.
unfoldable pub default_msi_handler : (device : Bool) (rest : Rest) (vec : ℕ) → Option Event
unfolding default_msi_event
default_msi_handler false rest vec = none
default_msi_handler true rest vec = some (default_msi_event rest vec)

unfoldable pub done_event : Result Done → Option Event
done_event (err e) = none
done_event (ok d) = some (record {
  type = type_dma_done;
  payload = Payload.dma d.ticket d.time d.cookie;
  received = 0;
  forwarded = 0;
})

-- The handler always returns IRQ_HANDLED.
unfoldable pub dma_msi_handler : Arch → Ctl → (irq stop start : ℕ) → Stats → Outcome × Option Event
unfolding done_event
dma_msi_handler a ctl irq stop start stats =
    let o = dma_done a ctl irq stop start stats in (o, done_event o.result)

abbrev pub dma_capability : ℕ
dma_capability = 0x10C

abbrev pub dma_status : ℕ
dma_status = 0x110

abbrev pub dma_src_addr : ℕ
dma_src_addr = 0x118

abbrev pub dma_dest_addr : ℕ
dma_dest_addr = 0x11C

abbrev pub dma_len_bytes : ℕ
dma_len_bytes = 0x120

abbrev pub dma_dir_up_strm : ℕ
dma_dir_up_strm = 0x124

abbrev pub dma_start : ℕ
dma_start = 0x128

abbrev pub dma_chan : ℕ
dma_chan = 0x12C

-- Which of the boards is detected, as far as bifrost_dma_init asks.
pub data Platform : Type 0 where
  rocky evander eoco ec702 unknown : Platform

-- The BAR with the DMA registers.
unfoldable pub dma_bar : Platform → ℕ
dma_bar Platform.rocky = 3
dma_bar Platform.evander = 2
dma_bar Platform.eoco = 2
dma_bar Platform.ec702 = 2
dma_bar Platform.unknown = 0

-- The loop that sets the interrupt of each channel, with `left` rounds to go.
unfoldable pub enable_from : Ctl → (irq left n : ℕ) → Ctl
enable_from ctl irq zero n = ctl
enable_from ctl irq (suc left) n = enable_from (enable_dma_ch ctl n (irq + n)) irq left (n + 1)

unfoldable pub enable_all : (irq num_ch : ℕ) → Option Ctl → Option Ctl × Result ℕ
unfolding enable_from
enable_all irq num_ch none = (none, err enomem)
enable_all irq num_ch (some ctl) = (some (enable_from ctl irq num_ch 0), ok 0)

-- `~val & ((1 << num_ch) - 1)` on a `u32`.
unfoldable pub idle_map : (status num_ch : ℕ) → ℕ
idle_map status num_ch = bit_and (2 ^ 32 - 1 - status) (2 ^ num_ch - 1)

module _ {Hw : Type 0} (io : Io Hw) where
  -- The writes that start a transfer; the barriers keep their order.
  unfoldable pub bifrost_dma_chan_start : Memory → (ch src dst len dir : ℕ) → Hw → Hw
  bifrost_dma_chan_start mem ch src dst len dir hw =
      let hw = wr io hw mem dma_chan ch in
      let hw = wr io hw mem dma_src_addr src in
      let hw = wr io hw mem dma_dest_addr dst in
      let hw = wr io hw mem dma_dir_up_strm dir in
      let hw = wr io hw mem dma_len_bytes len in wr io hw mem dma_start 1

  -- `memory` says whether alloc_dma_ctl gets memory.
  unfoldable pub bifrost_dma_init :
      Platform → (memory : Bool) (irq : ℕ) → Device → Hw → Device × Hw × Result ℕ
  unfolding dma_bar enable_all idle_map
  bifrost_dma_init platform memory irq d hw =
      let mem = d.regb (dma_bar platform) in
      let (capability, hw) = rd io hw mem dma_capability in
      let num_ch = bit_and capability 0xf in
      let (status, hw) = rd io hw mem dma_status in
      let (ctl, rc) =
        enable_all irq num_ch (alloc_dma_ctl memory num_ch (idle_map status num_ch)) in
      (record d { regb_dma = dma_bar platform; dma_ctl = ctl }, hw, rc)
