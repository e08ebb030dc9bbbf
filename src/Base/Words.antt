-- ===== src/Base/Words.antt =====
-- Words of 32 bits: setting, clearing and finding bits.
use Prim.Native.Nat.{ℕ, zero, suc, ◌+◌, ◌-◌, ◌/◌, ◌%◌, ◌^◌, ◌<◌, bit_and, bit_or}
use mathlib.Core.Path.{◌≡◌}
use mathlib.Core.Logic.{inl, inr}
use mathlib.Core.Bool.{true}
use native.Mathlib.Omega.{arith}
use bifrost_module.Base.Tests.{◌==◌, if◌then◌else◌, Bool-cases}
use bifrost_module.Base.Bits.{
  bit, bit-le, bit-bit_and, bit-bit_or, bit-pow, bit-complement, bit_and-lt, bit_or-lt,
  pow-lt_of_lt,
}

-- `x | (1 << k)` and `x & ~(1 << k)` on a `u32`.
pub set_bit : ℕ → ℕ → ℕ
set_bit x k = bit_or x (2 ^ k)

unfoldable pub clear_bit : ℕ → ℕ → ℕ
clear_bit x k = bit_and x (2 ^ 32 - 1 - 2 ^ k)

pub bit-set_bit : (x k i : ℕ) → bit (set_bit x k) i ≡ (if k == i then 1 else bit x i)
unfolding set_bit
bit-set_bit x k i = ground (arith, bit-bit_or x (2 ^ k) i, bit-pow k i, bit-le x i)

pub bit-clear_bit :
    (x k i : ℕ) → k < 32 → i < 32 → bit (clear_bit x k) i ≡ (if k == i then 0 else bit x i)
unfolding clear_bit
bit-clear_bit x k i hk hi = ground (
  arith,
  bit-bit_and x (2 ^ 32 - 1 - 2 ^ k) i,
  bit-complement 32 (2 ^ k) i (pow-lt_of_lt k 32 hk) hi,
  bit-pow k i,
  bit-le x i,
)

pub set_bit-lt : (x k : ℕ) → x < 2 ^ 32 → k < 32 → set_bit x k < 2 ^ 32
unfolding set_bit
set_bit-lt x k hx hk = bit_or-lt 32 x (2 ^ k) hx (pow-lt_of_lt k 32 hk)

pub clear_bit-lt : (x k : ℕ) → x < 2 ^ 32 → clear_bit x k < 2 ^ 32
unfolding clear_bit
clear_bit-lt x k hx = bit_and-lt 32 x (2 ^ 32 - 1 - 2 ^ k) hx

-- `ffs` of the C library: one more than the index of the lowest set bit, 0 if there is none.
ffs_from : ℕ → ℕ → ℕ
ffs_from zero x = 0
ffs_from (suc n) x =
    let rest = ffs_from n (x / 2) in if x % 2 == 1 then 1 else (if rest == 0 then 0 else rest + 1)

unfoldable pub ffs : ℕ → ℕ
unfolding ffs_from
ffs x = ffs_from 32 x

-- What a result of `ffs` says of the bits below w.
abbrev pub IsFfs : ℕ → ℕ → ℕ → Type 0
IsFfs w x zero = (i : ℕ) → i < w → bit x i ≡ 0
IsFfs w x (suc k) = (k < w) × (bit x k ≡ 1) × ((i : ℕ) → i < k → bit x i ≡ 0)

IsFfs-none : (w x : ℕ) → x % 2 ≡ 0 → IsFfs w (x / 2) 0 → IsFfs (suc w) x 0
unfolding bit
IsFfs-none w x even above zero h = even
IsFfs-none w x even above (suc i) h = above i (omega arith)

IsFfs-first : (w x k : ℕ) → x % 2 ≡ 0 → IsFfs w (x / 2) (suc k) → IsFfs (suc w) x (suc (suc k))
unfolding bit
IsFfs-first w x k even (lt, hit, above) = (omega arith, hit, lower)
  where
    lower : (i : ℕ) → i < suc k → bit x i ≡ 0
    lower zero h = even
    lower (suc i) h = above i (omega arith)

IsFfs-step :
    (w x r : ℕ) → x % 2 ≡ 0 → IsFfs w (x / 2) r → IsFfs (suc w) x (if r == 0 then 0 else r + 1)
IsFfs-step w x zero even h = IsFfs-none w x even h
IsFfs-step w x (suc k) even h =
    let e : (if suc k == 0 then 0 else suc k + 1) ≡ suc (suc k) = ground arith in
    rw e (IsFfs-first w x k even h)

lowest : (x : ℕ) → (x % 2 == 1) ≡ true → bit x 0 ≡ 1
unfolding bit
lowest x h = ground arith

ffs_from-IsFfs : (w x : ℕ) → IsFfs w x (ffs_from w x)
unfolding ffs_from
ffs_from-IsFfs zero x = λ i h. absurd (omega arith)
ffs_from-IsFfs (suc w) x = elim (Bool-cases (x % 2 == 1)) [
  | inl odd ↦ rw odd (omega arith, lowest x odd, λ i h. absurd (omega arith))
  | inr even ↦
      rw even (IsFfs-step w x (ffs_from w (x / 2)) (ground arith) (ffs_from-IsFfs w (x / 2)))
]

pub ffs-IsFfs : (x : ℕ) → IsFfs 32 x (ffs x)
unfolding ffs
ffs-IsFfs x = ffs_from-IsFfs 32 x
