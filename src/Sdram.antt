-- ===== src/Sdram.antt =====
-- Transfers over the memory bus to and from the FPGA's SDRAM, bifrost/bifrost_membus.c: the address
-- registers and the bursts.
pub mod Address
mod Tests
use bifrost_module.Base.{ℕ, ◌-◌, ◌/◌, ◌^◌, Result, ok, err, einval, bit_and, bit_or}
use bifrost_module.Device.{Io, Device}
use bifrost_module.Regs.{membus_write_device_memory}
use bifrost_module.UserDma.{Transfer, Direction}

abbrev fpga_wr_bit : ℕ
fpga_wr_bit = 0x8000

abbrev fpga_rd_bit : ℕ
fpga_rd_bit = 0

-- `(a >> 16) & ~FPGA_WR_BIT`
fpga_addr_hi : ℕ → ℕ
fpga_addr_hi a = bit_and (a / 2 ^ 16) (2 ^ 32 - 1 - fpga_wr_bit)

-- No odd addresses.
fpga_addr_lo : ℕ → ℕ
fpga_addr_lo a = bit_and a 0xfffe

-- `ioread16_rep` and `iowrite16_rep` of the kernel: the port, the buffer, and the number of words.
pub record Bursts (Hw : Type 0) : Type 0 where
  pub ioread16_rep : Hw → (port buffer count : ℕ) → Hw
  pub iowrite16_rep : Hw → (port buffer count : ℕ) → Hw

module _ {Hw : Type 0} (io : Io Hw) (bursts : Bursts Hw) (d : Device) where
  -- `membus_write_device_memory(bifrost->regb[0].handle, offset, value)`
  store : Hw → (offset value : ℕ) → Hw
  store hw offset value = membus_write_device_memory io hw (d.regb 0) offset value

  write_sdram : Hw → (p_src addr sz : ℕ) → Hw
  unfolding store fpga_addr_hi fpga_addr_lo
  write_sdram hw p_src addr sz =
      let hw1 = store hw 1 fpga_rd_bit in
      let hw2 = store hw1 0 (fpga_addr_lo addr) in
      let hw3 = store hw2 1 (bit_or (fpga_addr_hi addr) fpga_wr_bit) in
      bursts.iowrite16_rep hw3 (d.regb 1).addr p_src (sz / 2)

  read_sdram : Hw → (p_dst addr sz : ℕ) → Hw
  unfolding store fpga_addr_hi fpga_addr_lo
  read_sdram hw p_dst addr sz =
      let hw1 = store hw 1 fpga_wr_bit in
      let hw2 = store hw1 0 (fpga_addr_lo addr) in
      let hw3 = store hw2 1 (fpga_addr_hi addr) in
      bursts.ioread16_rep hw3 (d.regb 1).addr p_dst (sz / 2)

  unfoldable pub do_membus_xfer : Hw → Transfer → Direction → Hw × Result ℕ
  unfolding write_sdram read_sdram
  do_membus_xfer hw xfer Direction.down_stream =
      (write_sdram hw xfer.system xfer.device xfer.size, ok 0)
  do_membus_xfer hw xfer Direction.up_stream =
      (read_sdram hw xfer.system xfer.device xfer.size, ok 0)
  do_membus_xfer hw xfer Direction.other = (hw, err einval)
