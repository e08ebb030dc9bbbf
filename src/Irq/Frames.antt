-- ===== src/Irq/Frames.antt =====
-- The frame interrupt of the memory bus, FVDIRQ2Service of bifrost/bifrost_membus.c.
use bifrost_module.Base.{
  ℕ, ◌*◌, ◌/◌, ◌%◌, ◌^◌, ◌||◌, List, [], ◌∷◌, ◌==◌, if◌then◌else◌, bit_and, bit_or,
}
use bifrost_module.Events.{Event}
use bifrost_module.Device.{Io, Device}
use bifrost_module.Irq.{Data, no_data, event_of, read}

-- `if (test) x |= flag`
or_if : (test flag x : ℕ) → ℕ
or_if test flag x = if test == 0 then x else bit_or x flag

-- The number of a frame: the buffer, the line and trigger states, the time stamps as they are cut
-- out of the header words (`hd2 & 0xF << 8` is `hd2 & 0xF00`), and the counter.
pub frame_number : (buf_no frame_cnt hd1 hd2 hd3 hd5 : ℕ) → ℕ
unfolding or_if
frame_number buf_no frame_cnt hd1 hd2 hd3 hd5 =
    let x1 = or_if (bit_and hd5 0x1) 0x10 (bit_and buf_no 0xf) in
    let x2 = or_if (bit_and hd5 0x100) 0x20 x1 in
    let x3 = or_if (bit_and hd1 0x1) 0x40 x2 in
    let x4 = or_if (bit_and hd1 0x100) 0x80 x3 in
    let x5 = bit_or x4 (bit_and hd2 0xf00) in
    let x6 = bit_or x5 (bit_and (hd3 / 2 ^ 8) 0xf * 2 ^ 12) in
    bit_or x6 (frame_cnt * 2 ^ 16 % 2 ^ 32)

-- The line time stamps.
pub line_stamps : (hd2 hd3 hd4 : ℕ) → ℕ
line_stamps hd2 hd3 hd4 =
    bit_or (bit_or (bit_and (hd2 / 2 ^ 8) 0xff) (bit_and hd3 0xff * 2 ^ 8))
      (bit_and hd4 0xffff * 2 ^ 16)

module _ {Hw : Type 0} (io : Io Hw) (d : Device) where
  -- The cameras EC501 and EC501 i3.
  stamped_frame : Hw → Hw × Data
  unfolding frame_number line_stamps
  stamped_frame hw =
      let (buf_no, hw0) = read io d hw 0xb9 in
      let (hd1, hw1) = read io d hw0 0x14e in
      let (hd2, hw2) = read io d hw1 0x14f in
      let (hd3, hw3) = read io d hw2 0x150 in
      let (hd4, hw4) = read io d hw3 0x151 in
      let (hd5, hw5) = read io d hw4 0x152 in
      let (frame_cnt, hw6) = read io d hw5 0x153 in
      (
        hw6,
        record no_data {
          value = frame_number buf_no frame_cnt hd1 hd2 hd3 hd5;
          frame_size = line_stamps hd2 hd3 hd4;
        },
      )

  -- The cameras with the types 0x2A and 0x26.
  numbered_frame : Hw → Hw × Data
  numbered_frame hw =
      let (buf_no, hw0) = read io d hw 0xb9 in (hw0, record no_data { value = bit_and buf_no 0xf })

  unfoldable pub frame_of : (camtype : ℕ) → Hw → Hw × Data
  unfolding stamped_frame numbered_frame
  frame_of camtype hw =
      if (camtype % 2 ^ 16 == 0x19) || (camtype % 2 ^ 16 == 0x1f)
      then stamped_frame hw
      else (if (camtype % 2 ^ 16 == 0x2a) || (camtype % 2 ^ 16 == 0x26)
          then numbered_frame hw
          else (hw, no_data))

  unfoldable pub fvd_irq2_service : (now : ℕ) → Hw → Hw × List Event
  unfolding frame_of
  fvd_irq2_service now hw =
      let (camtype, hw0) = read io d hw 0x23 in
      let (hw1, x) = frame_of camtype hw0 in
      (hw1, event_of 0x20 (record x { frame_time = now }) ∷ [])
