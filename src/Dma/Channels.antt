-- ===== src/Dma/Channels.antt =====
-- Which channel is found idle, and that taking and freeing a channel are inverse.
use bifrost_module.Base.{
  ℕ, ap, sym, ◌==◌, Bool-cases, inl, inr, zero, suc, ◌+◌, ◌^◌, ◌<◌, ◌≡◌, ◌≢◌, Option, none, some,
  arith, bit, set_bit, clear_bit, ffs, IsFfs, ffs-IsFfs, bit-set_bit, bit-clear_bit, set_bit-lt,
  clear_bit-lt, eq_of_bits,
}
use bifrost_module.Dma.{
  lookup_chan, lookup_from, Ctl, find_1st_idle_chan, free_chan, take_chan, lookup_chan,
}

-- What `__find_1st_idle_chan` gives: -EBUSY and no change if no bit is set, else the lowest set bit,
-- which is then clear, with every other bit kept.
pub data Found (ctl : Ctl) : Ctl × Option ℕ → Type 0 where
  busy : ((i : ℕ) → i < 32 → bit ctl.idle_bitmap i ≡ 0) → Found ctl (ctl, none)
  got :
      (ch : ℕ)
      → ch < 32
      → bit ctl.idle_bitmap ch ≡ 1
      → ((i : ℕ) → i < ch → bit ctl.idle_bitmap i ≡ 0)
      → Found ctl (record ctl { idle_bitmap = clear_bit ctl.idle_bitmap ch }, some ch)

take_chan-Found : (ctl : Ctl) (r : ℕ) → IsFfs 32 ctl.idle_bitmap r → Found ctl (take_chan ctl r)
unfolding take_chan
take_chan-Found ctl zero h = busy h
take_chan-Found ctl (suc ch) (lt, hit, lower) = got ch lt hit lower

pub find_1st_idle_chan-Found : (ctl : Ctl) → Found ctl (find_1st_idle_chan ctl)
unfolding find_1st_idle_chan
find_1st_idle_chan-Found ctl = take_chan-Found ctl (ffs ctl.idle_bitmap) (ffs-IsFfs ctl.idle_bitmap)

set_bit-clear_bit : (x k : ℕ) → x < 2 ^ 32 → k < 32 → bit x k ≡ 1 → set_bit (clear_bit x k) k ≡ x
set_bit-clear_bit x k hx hk hit =
    eq_of_bits 32 _ x (set_bit-lt _ k (clear_bit-lt x k hx) hk) hx
      λ i lt. ground (arith, bit-set_bit (clear_bit x k) k i, bit-clear_bit x k i hk lt)

free_chan-Found :
    (ctl : Ctl) (ch : ℕ) (p : Ctl × Option ℕ)
    → ctl.idle_bitmap < 2 ^ 32
    → Found ctl p
    → p.1 ≡ some ch
    → free_chan p.0 ch ≡ ctl
unfolding free_chan
free_chan-Found ctl ch (c, none) fits (busy h) e = ground (arith, e)
free_chan-Found ctl ch (c, some j) fits (got k lt hit lower) e =
    let same : k ≡ ch = ground (arith, e) in
    rw (sym same)
      (ap (λ m. record ctl { idle_bitmap = m }) (set_bit-clear_bit ctl.idle_bitmap k fits lt hit))

-- Freeing the channel that was found idle gives back the controller, bit for bit of its bitmap, if
-- the bitmap fits 32 bits.
pub free_chan-find_1st_idle_chan :
    (ctl : Ctl) (ch : ℕ)
    → ctl.idle_bitmap < 2 ^ 32
    → (find_1st_idle_chan ctl).1 ≡ some ch
    → free_chan (find_1st_idle_chan ctl).0 ch ≡ ctl
free_chan-find_1st_idle_chan ctl ch fits found =
    free_chan-Found ctl ch (find_1st_idle_chan ctl) fits (find_1st_idle_chan-Found ctl) found

-- `lookup_chan` gives a channel below `num_ch` with the interrupt, the first such, or none has it.
pub data Looked (ctl : Ctl) (irq : ℕ) : Option ℕ → Type 0 where
  unknown : ((i : ℕ) → i < ctl.num_ch → (ctl.ch i).irq ≢ irq) → Looked ctl irq none
  known :
      (ch : ℕ)
      → ch < ctl.num_ch
      → (ctl.ch ch).irq ≡ irq
      → ((i : ℕ) → i < ch → (ctl.ch i).irq ≢ irq)
      → Looked ctl irq (some ch)

lookup_from-Looked :
    (ctl : Ctl) (irq left n : ℕ)
    → n + left ≡ ctl.num_ch
    → ((i : ℕ) → i < n → (ctl.ch i).irq ≢ irq)
    → Looked ctl irq (lookup_from ctl.ch irq left n)
unfolding lookup_from
lookup_from-Looked ctl irq zero n e before = unknown (λ i lt. before i (omega arith))
lookup_from-Looked ctl irq (suc left) n e before = elim (Bool-cases ((ctl.ch n).irq == irq)) [
  | inl hit ↦ rw hit (known n (omega arith) (ground arith) before)
  | inr miss ↦ rw miss (
      lookup_from-Looked ctl irq left (n + 1) (omega arith) (λ i lt. elim (Bool-cases (i == n)) [
        | inl here ↦ ground (arith, before i)
        | inr past ↦ before i (ground arith)
      ]))
]

pub lookup_chan-Looked : (ctl : Ctl) (irq : ℕ) → Looked ctl irq (lookup_chan ctl irq)
unfolding lookup_chan
lookup_chan-Looked ctl irq =
    lookup_from-Looked ctl irq ctl.num_ch 0 (omega arith) (λ i lt. absurd (omega arith))
