-- ===== src/Sdram/Address.antt =====
-- The address that the registers of the FPGA are given.
use native.Mathlib.Nat.{pow-suc}
use bifrost_module.Base.{
  ap, ap₂, bit_and_step, bit_or_step, bit_and_mask, ℕ, zero, suc, ◌+◌, ◌-◌, ◌*◌, ◌/◌, ◌%◌, ◌^◌, ◌<◌,
  ◌≡◌, refl, ok, bit_or, arith, bit-bit_and, bit-complement, bit-pow, eq_of_bits, bit_and-lt,
  bit-le,
}
use bifrost_module.Base.Bits.{bit}
use bifrost_module.Device.{Io, Device}
use bifrost_module.Regs.{membus_write_device_memory}
use bifrost_module.UserDma.{Transfer, Direction}
use bifrost_module.Sdram.{Bursts, fpga_addr_hi, fpga_addr_lo, do_membus_xfer, write_sdram, store}

fpga_addr_lo_lem : (a : ℕ) → a % 2 ≡ 0 → fpga_addr_lo a ≡ a % 2 ^ 16
unfolding fpga_addr_lo
fpga_addr_lo_lem a even = omega (arith, bit_and_step a 0xfffe, bit_and_mask 15 (a / 2))

fpga_addr_hi_lem : (a : ℕ) → a < 2 ^ 31 → fpga_addr_hi a ≡ a / 2 ^ 16
unfolding fpga_addr_hi
fpga_addr_hi_lem a lt =
    let x = a / 2 ^ 16 in
    let small : x < 2 ^ 15 = omega (arith, lt) in
    eq_of_bits 15 _ x (bit_and-lt 15 x (2 ^ 32 - 1 - 0x8000) small) small λ i below. omega (
      arith,
      bit-bit_and x (2 ^ 32 - 1 - 0x8000) i,
      bit-le x i,
      bit-complement 32 0x8000 i (omega arith) (omega (arith, below)),
      write_bit i below,
    )
  where
    write_bit : (i : ℕ) → i < 15 → bit 0x8000 i ≡ 0
    write_bit i below = ground (arith, bit-pow 15 i, below)

bit_or-pow : (w x : ℕ) → x < 2 ^ w → bit_or x (2 ^ w) ≡ x + 2 ^ w
bit_or-pow zero zero lt = refl
bit_or-pow zero (suc x) lt = absurd (omega (arith, lt))
bit_or-pow (suc w) x lt =
    let half : 2 ^ suc w / 2 ≡ 2 ^ w = omega (arith, pow-suc 2 w) in
    omega (
      arith,
      pow-suc 2 w,
      bit_or_step x (2 ^ suc w),
      ap (bit_or (x / 2)) half,
      bit_or-pow w (x / 2) (omega (arith, pow-suc 2 w, lt)),
    )

-- A transfer down, to an even address below 2^31, takes the write bit off, gives the FPGA the two
-- halves lo and hi of the address, of which hi is below 2^15 and comes with the write bit, which is
-- above it, and sends half as many words as there are bytes to the port; it returns 0.
pub do_membus_xfer_down :
    {Hw : Type 0} (io : Io Hw) (bursts : Bursts Hw) (d : Device) (hw : Hw) (xfer : Transfer)
    → xfer.device % 2 ≡ 0
    → xfer.device < 2 ^ 31
    → let set =
        λ (h : Hw) (offset value : ℕ). membus_write_device_memory io h (d.regb 0) offset value in
      (lo : ℕ) × (hi : ℕ) × (lo < 2 ^ 16)
      × (hi < 2 ^ 15)
      × (xfer.device ≡ hi * 2 ^ 16 + lo)
      × (do_membus_xfer io bursts d hw xfer Direction.down_stream ≡ (
        bursts.iowrite16_rep
            (set (set (set hw 1 0) 0 lo) 1 (2 ^ 15 + hi))
            (d.regb 1).addr
            xfer.system
            (xfer.size / 2),
        ok 0,
      ))
unfolding do_membus_xfer write_sdram store fpga_addr_hi fpga_addr_lo
do_membus_xfer_down io bursts d hw xfer even lt =
    let a = xfer.device in
    let high : bit_or (fpga_addr_hi a) 0x8000 ≡ 2 ^ 15 + a / 2 ^ 16 = omega (
      arith,
      ap (λ (h : ℕ). bit_or h 0x8000) (fpga_addr_hi_lem a lt),
      bit_or-pow 15 (a / 2 ^ 16) (omega (arith, lt)),
    ) in
    (
      a % 2 ^ 16,
      a / 2 ^ 16,
      omega arith,
      omega (arith, lt),
      omega arith,
      ap₂
          (λ (lo h : ℕ). (
            bursts.iowrite16_rep
                (membus_write_device_memory io
                  (membus_write_device_memory io (membus_write_device_memory io hw (d.regb 0) 1 0)
                    (d.regb 0) 0 lo)
                  (d.regb 0) 1 h)
                (d.regb 1).addr xfer.system (xfer.size / 2),
            ok 0,
          ))
          (fpga_addr_lo_lem a even) high,
    )
