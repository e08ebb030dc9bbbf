-- ===== src/Base/Bits.antt =====
-- The bit operators of C on words: single bits of `&`, `|`, `~` and `1 << k`, at every index.
use Prim.Native.Nat.{
  ℕ, zero, suc, ◌+◌, ◌-◌, ◌*◌, ◌/◌, ◌%◌, ◌^◌, ◌≤◌, ◌<◌, min, max, bit_and, bit_or, digits,
  bit_and-bitwise, bit_or-bitwise,
}
use mathlib.Core.Path.{◌≡◌, refl, sym, subst, ap, ap₂, ◌∙◌}
use native.Mathlib.Omega.{arith}
use native.Mathlib.Nat.{pow-suc, one-le-pow, div-add-mod, div-div-eq-div-mul}
use mathlib.Core.Logic.{inl, inr}
use bifrost_module.Base.Tests.{◌==◌, if◌then◌else◌, ltb, ltb→lt, Bool-cases}

-- Bit i of x, as 0 or 1.
unfoldable pub bit : ℕ → ℕ → ℕ
bit x zero = x % 2
bit x (suc i) = bit (x / 2) i

pub bit-le : (x i : ℕ) → bit x i ≤ 1
unfolding bit
bit-le x zero = omega arith
bit-le x (suc i) = bit-le (x / 2) i

-- Fuel of at least the left operand is enough for any digit-wise operation.
digits_fuel :
    (z : ℕ → ℕ) (f : ℕ → ℕ → ℕ) (n m a b : ℕ) → a ≤ n → a ≤ m → digits z f n a b ≡ digits z f m a b
digits_fuel z f zero zero a b p q = refl
digits_fuel z f zero (suc m) zero b p q = refl
digits_fuel z f zero (suc m) (suc a) b p q = absurd (omega arith)
digits_fuel z f (suc n) zero zero b p q = refl
digits_fuel z f (suc n) zero (suc a) b p q = absurd (omega arith)
digits_fuel z f (suc n) (suc m) zero b p q = refl
digits_fuel z f (suc n) (suc m) (suc a) b p q =
    omega (arith, digits_fuel z f n m (suc a / 2) (b / 2) (omega arith) (omega arith))

pub bit_and_step : (a b : ℕ) → bit_and a b ≡ bit_and (a / 2) (b / 2) * 2 + min (a % 2) (b % 2)
bit_and_step zero b = omega (arith, bit_and-bitwise 0 b, bit_and-bitwise 0 (b / 2))
bit_and_step (suc a) b = omega (
  arith,
  bit_and-bitwise (suc a) b,
  bit_and-bitwise (suc a / 2) (b / 2),
  digits_fuel (λ b. zero) min a (suc a / 2) (suc a / 2) (b / 2) (omega arith) (omega arith),
)

pub bit_or_step : (a b : ℕ) → bit_or a b ≡ bit_or (a / 2) (b / 2) * 2 + max (a % 2) (b % 2)
bit_or_step zero b = omega (arith, bit_or-bitwise 0 b, bit_or-bitwise 0 (b / 2))
bit_or_step (suc a) b = omega (
  arith,
  bit_or-bitwise (suc a) b,
  bit_or-bitwise (suc a / 2) (b / 2),
  digits_fuel (λ b. b) max a (suc a / 2) (suc a / 2) (b / 2) (omega arith) (omega arith),
)

bit_and-zero : (n a : ℕ) → a ≤ n → bit_and a 0 ≡ 0
bit_and-zero n zero h = refl
bit_and-zero zero (suc a) h = absurd (omega arith)
bit_and-zero (suc n) (suc a) h =
    omega (arith, bit_and_step (suc a) 0, bit_and-zero n (suc a / 2) (omega arith))

pub bit-bit_and : (a b i : ℕ) → bit (bit_and a b) i ≡ min (bit a i) (bit b i)
unfolding bit
bit-bit_and a b zero = omega (arith, bit_and_step a b)
bit-bit_and a b (suc i) =
    let half : bit_and a b / 2 ≡ bit_and (a / 2) (b / 2) = omega (arith, bit_and_step a b) in
    omega (arith, ap (λ (t : ℕ). bit t i) half, bit-bit_and (a / 2) (b / 2) i)

pub bit-bit_or : (a b i : ℕ) → bit (bit_or a b) i ≡ max (bit a i) (bit b i)
unfolding bit
bit-bit_or a b zero = omega (arith, bit_or_step a b)
bit-bit_or a b (suc i) =
    let half : bit_or a b / 2 ≡ bit_or (a / 2) (b / 2) = omega (arith, bit_or_step a b) in
    omega (arith, ap (λ (t : ℕ). bit t i) half, bit-bit_or (a / 2) (b / 2) i)

pub bit-zero : (i : ℕ) → bit 0 i ≡ 0
unfolding bit
bit-zero zero = refl
bit-zero (suc i) = bit-zero i

pub bit-pow : (k i : ℕ) → bit (2 ^ k) i ≡ (if k == i then 1 else 0)
unfolding bit
bit-pow zero zero = refl
bit-pow zero (suc i) = ground (arith, bit-zero i)
bit-pow (suc k) zero = ground (arith, pow-suc 2 k)
bit-pow (suc k) (suc i) =
    let half : 2 ^ suc k / 2 ≡ 2 ^ k = omega (arith, pow-suc 2 k) in
    ground (arith, ap (λ (t : ℕ). bit t i) half, bit-pow k i)

-- `~x` on a word of w bits is 2^w - 1 - x.
pub bit-complement : (w x i : ℕ) → x < 2 ^ w → i < w → bit (2 ^ w - 1 - x) i + bit x i ≡ 1
unfolding bit
bit-complement zero x i h lt = absurd (omega arith)
bit-complement (suc w) x zero h lt = omega (arith, pow-suc 2 w)
bit-complement (suc w) x (suc i) h lt =
    let half : (2 ^ suc w - 1 - x) / 2 ≡ 2 ^ w - 1 - x / 2 = omega (arith, pow-suc 2 w) in
    let fits : x / 2 < 2 ^ w = omega (arith, pow-suc 2 w) in
    omega (arith, ap (λ (t : ℕ). bit t i) half, bit-complement w (x / 2) i fits)

-- Two words with the same bits are the same.
pub eq_of_bits : (w x y : ℕ) → x < 2 ^ w → y < 2 ^ w → ((i : ℕ) → i < w → bit x i ≡ bit y i) → x ≡ y
unfolding bit
eq_of_bits zero x y hx hy h = omega arith
eq_of_bits (suc w) x y hx hy h = omega (
  arith,
  h 0 (omega arith),
  eq_of_bits w (x / 2) (y / 2) (omega (arith, pow-suc 2 w)) (omega (arith, pow-suc 2 w))
      (λ i lt. h (suc i) (omega arith)),
)

pub bit_and-lt : (w a b : ℕ) → a < 2 ^ w → bit_and a b < 2 ^ w
bit_and-lt zero zero b h = omega (arith, bit_and-bitwise 0 b)
bit_and-lt zero (suc a) b h = absurd (omega arith)
bit_and-lt (suc w) a b h = omega (
  arith,
  pow-suc 2 w,
  bit_and_step a b,
  bit_and-lt w (a / 2) (b / 2) (omega (arith, pow-suc 2 w)),
)

pub bit_or-lt : (w a b : ℕ) → a < 2 ^ w → b < 2 ^ w → bit_or a b < 2 ^ w
bit_or-lt zero zero zero ha hb = omega arith
bit_or-lt zero (suc a) b ha hb = absurd (omega arith)
bit_or-lt zero zero (suc b) ha hb = absurd (omega arith)
bit_or-lt (suc w) a b ha hb =
    let low : bit_or (a / 2) (b / 2) < 2 ^ w =
      bit_or-lt w (a / 2) (b / 2) (omega (arith, pow-suc 2 w)) (omega (arith, pow-suc 2 w)) in
    omega (arith, pow-suc 2 w, bit_or_step a b, low)

pub pow-lt_of_lt : (k w : ℕ) → k < w → 2 ^ k < 2 ^ w
pow-lt_of_lt zero zero h = absurd (omega arith)
pow-lt_of_lt zero (suc w) h = omega (arith, pow-suc 2 w, one-le-pow w 2)
pow-lt_of_lt (suc k) zero h = absurd (omega arith)
pow-lt_of_lt (suc k) (suc w) h =
    omega (arith, pow-suc 2 w, pow-suc 2 k, pow-lt_of_lt k w (omega arith))

mod-pow_step : (w x : ℕ) → x % 2 ^ suc w ≡ x / 2 % 2 ^ w * 2 + x % 2
mod-pow_step w x =
    let double : 2 ^ suc w ≡ 2 * 2 ^ w = omega (arith, pow-suc 2 w) in
    let quotient : x / 2 ^ suc w ≡ x / 2 / 2 ^ w =
      ap (◌/◌ x) double ∙ sym (div-div-eq-div-mul x 2 (2 ^ w)) in
    omega (arith, ap₂ ◌*◌ double quotient, div-add-mod x (2 ^ suc w), div-add-mod (x / 2) (2 ^ w))

-- `x & (2^w - 1)` is the remainder by 2^w.
pub bit_and_mask : (w x : ℕ) → bit_and x (2 ^ w - 1) ≡ x % 2 ^ w
bit_and_mask zero x = omega (arith, bit_and-zero x x)
bit_and_mask (suc w) x =
    let half : (2 ^ suc w - 1) / 2 ≡ 2 ^ w - 1 = omega (arith, pow-suc 2 w, one-le-pow w 2) in
    omega (
      arith,
      pow-suc 2 w,
      one-le-pow w 2,
      bit_and_step x (2 ^ suc w - 1),
      ap (bit_and (x / 2)) half,
      bit_and_mask w (x / 2),
      mod-pow_step w x,
    )

-- A number has no bit above its width.
pub bit-high : (w x i : ℕ) → x < 2 ^ w → w ≤ i → bit x i ≡ 0
unfolding bit
bit-high zero x i lt le = rw (small x lt) (bit-zero i)
  where
    small : (x : ℕ) → x < 2 ^ 0 → x ≡ 0
    small x h = omega arith
bit-high (suc w) x zero lt le = absurd (omega (arith, le))
bit-high (suc w) x (suc i) lt le =
    bit-high w (x / 2) i (omega (arith, pow-suc 2 w, lt)) (omega (arith, le))

pub pow-pos : (w : ℕ) → 0 < 2 ^ w
pow-pos zero = omega arith
pow-pos (suc w) = omega (arith, pow-suc 2 w, pow-pos w)

sub_zero : (n : ℕ) → n - 0 ≡ n
sub_zero n = omega arith

-- The mask of the bits below a width.
pub bit-mask : (w i : ℕ) → bit (2 ^ w - 1) i ≡ (if ltb i w then 1 else 0)
bit-mask w i = elim (Bool-cases (ltb i w)) [
  | inl e ↦ rw (e) (
      let all : bit (2 ^ w - 1) i + bit 0 i ≡ 1 =
        subst (λ m. bit m i + bit 0 i ≡ 1) (sub_zero (2 ^ w - 1))
          (bit-complement w 0 i (pow-pos w) (ltb→lt i w e)) in
      omega (arith, all, bit-zero i))
  | inr e ↦ rw (e) (bit-high w (2 ^ w - 1) i (omega (arith, pow-pos w)) (ground (arith, e)))
]
