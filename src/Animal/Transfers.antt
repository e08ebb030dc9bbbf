-- ===== src/Animal/Transfers.antt =====
-- What the block transfers of animal-i2c/i2c_main.c give to user space.
use bifrost_module.Base.{
  ℕ, ◌+◌, ◌-◌, ◌≤◌, ◌≡◌, refl, Bool, true, false, some, List, [], ◌∷◌, ◌++◌, ltb, length, copy_out,
  copy_out-copy_in, copy_out-copy_in_more, arith, sym, ◌∙◌, ok,
}
use bifrost_module.Animal.{
  Device, Handle, Request, access, read_block, transfer, write_msg, read_msg,
}
use bifrost_module.Animal.Ioctl.{
  Answer, do_animal_ioctl, accessed, given, with_user, do_read_block, do_i2c_writeread, no_memory,
  block_after, smb_read_block, i2c_writeread, animal_smb_buffer_max_size,
  animal_i2c_buffer_max_size,
}

zero_add : (n : ℕ) → 0 + n ≡ n
zero_add n = omega arith

fits_ltb : (a b : ℕ) → b ≤ a → ltb a b ≡ false
fits_ltb a b le = ground arith

no_memory-small :
    (n : ℕ) (memory : Bool) → n ≤ animal_smb_buffer_max_size → no_memory n memory ≡ false
unfolding no_memory
no_memory-small n true le = refl
no_memory-small n false le = fits_ltb animal_smb_buffer_max_size n le

-- A write and read of at most 32 bytes that the core answers with as many bytes: user space gets these
-- bytes and the result is 0, with one use of the bus, of the command byte and then the read.
pub writeread-small :
    (d : Device) (block : ℕ → ℕ) (core : Request → Answer) (h : Handle) (command size rc : ℕ)
    (memory : Bool) (xs : List ℕ)
    → size ≤ animal_smb_buffer_max_size
    → core (transfer (write_msg h.addr (command ∷ []) ∷ read_msg h.addr size ∷ []))
      ≡ record { rc = ok rc; bytes = xs }
    → length xs ≡ size
    → do_animal_ioctl d block core h (i2c_writeread (some command) (some size) memory true)
      ≡ record {
        handle = h;
        actions = access h (transfer (write_msg h.addr (command ∷ []) ∷ read_msg h.addr size ∷ []));
        out = xs;
        result = ok 0;
      }
unfolding do_animal_ioctl with_user do_i2c_writeread block_after given accessed
writeread-small d block core h command size rc memory xs small answer len =
    rw
      (
        fits_ltb animal_i2c_buffer_max_size size (omega (arith, small)),
        no_memory-small size memory small,
        fits_ltb animal_smb_buffer_max_size size small,
        answer,
      )
      rw (sym len, copy_out-copy_in xs 0 block) refl

-- A block read of at most 32 bytes for which the core stores fewer: user space gets the bytes of the
-- core, and behind them the bytes that stood on the stack.
pub read_block-short :
    (d : Device) (block : ℕ → ℕ) (core : Request → Answer) (h : Handle) (command size rc : ℕ)
    (xs : List ℕ)
    → size ≤ animal_smb_buffer_max_size
    → core (read_block h.addr command) ≡ record { rc = ok rc; bytes = xs }
    → length xs ≤ size
    → (do_animal_ioctl d block core h (smb_read_block (some command) (some size) true)).out
      ≡ xs ++ copy_out (size - length xs) (length xs) block
unfolding do_animal_ioctl with_user do_read_block given accessed
read_block-short d block core h command size rc xs small answer len =
    rw (fits_ltb animal_smb_buffer_max_size size small, answer)
      (copy_out-copy_in_more xs size 0 block len ∙ rw (zero_add (length xs)) refl)
