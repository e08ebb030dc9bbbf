-- ===== src/Stats/Bounds.antt =====
-- Bounds of the transfer statistics: no overflow of the speed, and the running average.
use native.Mathlib.Nat.{
  mul-div_cancel, le-div_iff_mul-le, div-mul-le_self, mod-eq_of_lt, mod-le, le_trans,
}
use bifrost_module.Base.{ap, ◌∙◌, ℕ, zero, suc, ◌+◌, ◌-◌, ◌*◌, ◌/◌, ◌%◌, ◌≤◌, ◌<◌, max, ◌≡◌, arith}
use bifrost_module.Stats.{Arch, average}

-- Whole parts of avg (n - 1) / n and last / n add up to at most the greater of the two.
average_le : (m avg n last : ℕ) → 0 < n → avg ≤ m → last ≤ m → avg * (n - 1) / n + last / n ≤ m
average_le m avg zero last h0 ha hl = absurd (omega arith)
average_le m avg (suc k) last h0 ha hl =
    let n : ℕ = suc k in
    let one_less : avg * (n - 1) ≡ avg * k = ap (λ (t : ℕ). avg * t) (omega arith) in
    let mono : avg * k ≤ m * k = grind arith in
    let scaled : (avg * (n - 1) / n + last / n) * n ≤ m * n =
      omega (arith, div-mul-le_self (avg * (n - 1)) n, div-mul-le_self last n, one_less, mono) in
    rw (← mul-div_cancel m h0) ((le-div_iff_mul-le h0).1 scaled)

-- While the counter, which is above 0, the product, the old average and the last speed are all below
-- the width of a word, the new average is at most the greater of the old average and the last speed.
pub average-le-max :
    (a : Arch) (avg n last : ℕ)
    → 0 < n
    → n < a.ulong
    → avg * (n - 1) < a.ulong
    → avg < a.ulong
    → last < a.ulong
    → average a avg n last ≤ max avg last
unfolding average
average-le-max a avg n last h0 hn hp ha hl =
    let bound : avg * (n - 1) / n + last / n ≤ max avg last =
      average_le (max avg last) avg n last h0 (omega arith) (omega arith) in
    let one_less : (n + a.ulong - 1) % a.ulong ≡ n - 1 = grind arith in
    let product : avg * ((n + a.ulong - 1) % a.ulong) % a.ulong ≡ avg * (n - 1) =
      ap (λ (t : ℕ). avg * t % a.ulong) one_less ∙ mod-eq_of_lt hp in
    rw product (le_trans (mod-le _ a.ulong) bound)
