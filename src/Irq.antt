-- ===== src/Irq.antt =====
-- The interrupt services of the memory bus, bifrost/bifrost_membus.c: what they read from the FPGA,
-- and the events that they create. One event structure serves a whole call, so what an earlier part
-- of a service stored in it is still there in a later event.
pub mod Frames
pub mod Sources
mod Tests
use bifrost_module.Base.{
  ℕ, ◌+◌, ◌-◌, ◌*◌, ◌/◌, ◌%◌, ◌^◌, Bool, true, false, ◌||◌, not, List, [], ◌∷◌, ◌++◌, ◌==◌,
  if◌then◌else◌, bit_and, bit_or,
}
use bifrost_module.Events.{Payload, Event, type_irq}
use bifrost_module.Device.{Io, Device}
use bifrost_module.Regs.{membus_read_device_memory}

-- The event structure of a service: the second word of its data (`irqstatus.value` and
-- `frame.frameNo`), `frame.frameSize` and `frame.time`.
pub record Data : Type 0 where
  pub value : ℕ
  pub frame_size : ℕ
  pub frame_time : ℕ

-- The structure after `memset`.
abbrev pub no_data : Data
no_data = record { value = 0; frame_size = 0; frame_time = 0 }

-- The event of a source.
pub event_of : (source : ℕ) → Data → Event
event_of source x = record {
  type = type_irq;
  payload = Payload.irq source x.value x.frame_size x.frame_time;
  received = 0;
  forwarded = 0;
}

-- A service on its way: the hardware, the event structure, and the events created so far.
pub record Service (Hw : Type 0) : Type 0 where
  pub hw : Hw
  pub content : Data
  pub events : List Event

abbrev emit : {Hw : Type 0} → (source : ℕ) → Hw → Data → List Event → Service Hw
emit source hw x events = record { hw = hw; content = x; events = events ++ event_of source x ∷ [] }

-- `if (mask & vector & bit)`
part : {Hw : Type 0} → (pending flag : ℕ) → (Service Hw → Service Hw) → Service Hw → Service Hw
part pending flag body s = if bit_and pending flag == 0 then s else body s

module _ {Hw : Type 0} (io : Io Hw) (d : Device) where
  -- `membus_read_device_memory(bifrost->regb[0].handle, offset, &v)`
  pub read : Hw → (offset : ℕ) → ℕ × Hw
  read hw offset = membus_read_device_memory io hw (d.regb 0) offset

  pub fvd_interrupt_service : Hw → Hw × List Event
  unfolding read event_of
  fvd_interrupt_service hw =
      let (exec_status, hw') = read hw 0x1c in
      (hw', event_of 1 (record no_data { value = exec_status }) ∷ [])

  execute_irq : Service Hw → Service Hw
  unfolding event_of
  execute_irq s = emit 0x40 s.hw s.content s.events

  hsi_irq : Service Hw → Service Hw
  unfolding event_of
  hsi_irq s = emit 0x02 s.hw s.content s.events

  -- `frameSizeReg` is a `u32`.
  jpegls_irq : (now : ℕ) → Service Hw → Service Hw
  unfolding event_of read
  jpegls_irq now s =
      let (frame_no, hw1) = read s.hw 0x170 in
      let (frame_size, hw2) = read hw1 ((0x171 + frame_no) % 2 ^ 32) in
      emit 0x04 hw2 (record { value = frame_no; frame_size = frame_size; frame_time = now })
        s.events

  -- The digital inputs of the camera types that have them, and 0.
  dio_status : (camtype : ℕ) → Hw → ℕ × Hw
  unfolding read
  dio_status camtype hw =
      if camtype % 2 ^ 16 == 0x8
      then read hw 0x150
      else (if (camtype % 2 ^ 16 == 0x19) || (camtype % 2 ^ 16 == 0x1f)
          then read hw 0x152
          else (0, hw))

  dio_irq : Service Hw → Service Hw
  unfolding event_of read dio_status
  dio_irq s =
      let (camtype, hw1) = read s.hw 0x23 in
      let (status, hw2) = dio_status camtype hw1 in
      emit 0x08 hw2 (record s.content { value = status }) s.events

  -- Bit 4 of the state is 0 if the link is up: `!!!(hsi_state & 0x10)`.
  cable_irq : Service Hw → Service Hw
  unfolding event_of read
  cable_irq s =
      let (hsi_state, hw1) = read s.hw 0x141 in
      emit 0x10 hw1 (record s.content { value = if bit_and hsi_state 0x10 == 0 then 1 else 0 })
        s.events

  -- The five parts of FVDIRQ1Service, in order, for the pending interrupts.
  serve_pending : (pending now : ℕ) → Service Hw → Service Hw
  unfolding part execute_irq hsi_irq jpegls_irq dio_irq cable_irq
  serve_pending pending now s =
      let s1 = part pending 0x10 execute_irq s in
      let s2 = part pending 0x20 hsi_irq s1 in
      let s3 = part pending 0x100 (jpegls_irq now) s2 in
      let s4 = part pending 0x200 dio_irq s3 in part pending 0x400 cable_irq s4

  pub fvd_irq1_service : (now : ℕ) → Hw → Hw × List Event
  unfolding read serve_pending
  fvd_irq1_service now hw =
      let (mask, hw1) = read hw 0x38 in
      let (vector, hw2) = read hw1 0x37 in
      let s =
        serve_pending (bit_and mask vector) now
          (record { hw = hw2; content = no_data; events = [] }) in
      (s.hw, s.events)
