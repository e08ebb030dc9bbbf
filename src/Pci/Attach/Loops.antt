-- ===== src/Pci/Attach/Loops.antt =====
-- The loops over the MSI actions of bifrost/bifrost_pci.c, as loops that take and give back.
use bifrost_module.Base.{
  ℕ, zero, suc, ◌+◌, ◌-◌, ◌≤◌, ◌<◌, ◌≡◌, refl, sym, ap, ap₂, ◌∙◌, Bool, true, false, ◌&&◌, Option,
  none, some, [], ◌++◌, ltb, update, Result, arith, Bool-cases, Option-cases, inl, inr,
}
use bifrost_module.Startup.{resource, is_zero}
use bifrost_module.Startup.Each.{take_each, give_each, take_if, give_if}
use bifrost_module.Pci.Attach.{
  Handler, Msi, request_msi, attach_one, attach_from, msi_fvd, copied, detach_one, detach_from,
}

abbrev pub has : Option Handler → Bool
has none = false
has (some h) = true

-- The interrupt that an action has if `b` says so.
abbrev pub irq_if : Bool → ℕ → Option ℕ
irq_if true q = some q
irq_if false q = none

abbrev pub from_irq : (ℕ → Bool) → (hw_irq q : ℕ) → Bool
from_irq f hw_irq q = f (q - hw_irq)

add_sub : (a b : ℕ) → a + b - a ≡ b
add_sub a b = omega arith

add_next : (a b : ℕ) → a + b + 1 ≡ a + (b + 1)
add_next a b = omega arith

zero_add : (n : ℕ) → 0 + n ≡ n
zero_add n = omega arith

suc_add : (a b : ℕ) → suc a + b ≡ suc (a + b)
suc_add a b = omega arith

-- No number is below 0.
pub none_below : (hw_irq j : ℕ) (b : Bool) → none ≡ irq_if (ltb j 0 && b) (hw_irq + j)
none_below hw_irq j b = ground arith

add_zero : (n : ℕ) → n + 0 ≡ n
add_zero n = omega arith

add_next_round : (a b : ℕ) → a + 1 + b ≡ a + suc b
add_next_round a b = omega arith

ltb_self : (n : ℕ) → ltb n n ≡ false
ltb_self n = ground arith

attach_one-acts :
    (rc : Result ℕ) (m : Msi) (hw_irq n : ℕ)
    → m.irq ≡ none
    → ((attach_one rc m hw_irq n).1
        ≡ take_if (has m.handler && is_zero rc) (resource 20 (hw_irq + n)))
      × ((attach_one rc m hw_irq n).0.irq ≡ irq_if (has m.handler && is_zero rc) (hw_irq + n))
unfolding attach_one request_msi
attach_one-acts rc m hw_irq n fresh = elim (Option-cases m.handler) [
  | inl e ↦ rw (e, fresh) (refl, refl)
  | inr (h, e) ↦
      rw (e, fresh)
        elim (Bool-cases (is_zero rc)) [ inl z ↦ rw (z) (refl, refl) | inr z ↦ rw (z) (refl, refl) ]
]

detach_one-acts :
    (m : Msi) (b : Bool) (q : ℕ)
    → m.irq ≡ irq_if b q
    → ((detach_one m).1 ≡ give_if b (resource 20 q)) × ((detach_one m).0.irq ≡ none)
unfolding detach_one
detach_one-acts m true q e = rw (e) (refl, refl)
detach_one-acts m false q e = rw (e) (refl, refl)

-- What the table has from `n` on, when the actions that `f` names have their interrupts.
abbrev pub HasIrqs : (ℕ → Bool) → (hw_irq n : ℕ) → (ℕ → Msi) → Type 0
HasIrqs f hw_irq n table = (j : ℕ) → n ≤ j → (table j).irq ≡ irq_if (f j) (hw_irq + j)

pub detach_from-acts :
    (f : ℕ → Bool) (hw_irq rounds n : ℕ) (table : ℕ → Msi)
    → HasIrqs f hw_irq n table
    → (detach_from rounds n table).1 ≡ give_each 20 (from_irq f hw_irq) rounds (hw_irq + n)
unfolding detach_from
detach_from-acts f hw_irq zero n table irqs = refl
detach_from-acts f hw_irq (suc rounds) n table irqs =
    rw (add_sub hw_irq n, add_next hw_irq n)
      (ap₂ ◌++◌ ((detach_one-acts (table n) (f n) (hw_irq + n) (irqs n (omega arith))).0) (
        detach_from-acts f hw_irq rounds (n + 1) (update table n (detach_one (table n)).0)
          (λ j le. ground (arith, le, irqs j))))

-- After the loop, the actions before `n + rounds` have the interrupts that were requested.
pub attach_from-acts :
    (answers : ℕ → Result ℕ) (f : ℕ → Bool) (hw_irq rounds n : ℕ) (table : ℕ → Msi)
    → ((j : ℕ) → (table j).irq ≡ irq_if (ltb j n && f j) (hw_irq + j))
    → ((j : ℕ) → n ≤ j → f j ≡ (has (table j).handler && is_zero (answers j)))
    → ((attach_from answers hw_irq rounds n table).1
        ≡ take_each 20 (from_irq f hw_irq) rounds (hw_irq + n))
      × ((j : ℕ)
          → ((attach_from answers hw_irq rounds n table).0 j).irq
            ≡ irq_if (ltb j (n + rounds) && f j) (hw_irq + j))
unfolding attach_from
attach_from-acts answers f hw_irq zero n table irqs named = (refl, λ j. rw (add_zero n) (irqs j))
attach_from-acts answers f hw_irq (suc rounds) n table irqs named =
    let one : (((attach_one (answers n) (table n) hw_irq n).1
          ≡ take_if (f n) (resource 20 (hw_irq + n)))
        × ((attach_one (answers n) (table n) hw_irq n).0.irq ≡ irq_if (f n) (hw_irq + n))) =
      rw (named n (omega arith))
        (attach_one-acts (answers n) (table n) hw_irq n (irqs n ∙ rw (ltb_self n) refl)) in
    let (acts, after) =
      attach_from-acts answers f hw_irq rounds (n + 1)
        (update table n (attach_one (answers n) (table n) hw_irq n).0)
        (λ j. ground (arith, irqs j, one.1))
        (λ j le. ground (arith, le, named j (omega (arith, le)))) in
    (
      rw (add_sub hw_irq n, add_next hw_irq n) (ap₂ ◌++◌ one.0 acts),
      λ j. rw (sym (add_next_round n rounds)) (after j),
    )

-- Rounds for which there is nothing to give back.
give_each-beyond :
    (k : ℕ) (f : ℕ → Bool) (r i : ℕ) → ((q : ℕ) → i ≤ q → f q ≡ false) → give_each k f r i ≡ []
give_each-beyond k f zero i beyond = refl
give_each-beyond k f (suc r) i beyond =
    rw (beyond i (omega arith))
      (give_each-beyond k f r (i + 1) (λ q le. beyond q (omega (arith, le))))

pub give_each-cut :
    (k : ℕ) (f g : ℕ → Bool) (m r i : ℕ)
    → ((q : ℕ) → i ≤ q → q < i + m → g q ≡ f q)
    → ((q : ℕ) → i + m ≤ q → g q ≡ false)
    → give_each k g (m + r) i ≡ give_each k f m i
give_each-cut k f g zero r i agree beyond =
    rw (zero_add r) (give_each-beyond k g r i (λ q le. beyond q (omega (arith, le))))
give_each-cut k f g (suc m) r i agree beyond =
    rw (suc_add m r, agree i (omega arith) (omega arith))
      (ap (◌++◌ (give_if (f i) (resource k i))) (
        give_each-cut k f g m r (i + 1) (λ q le lt. agree q (omega (arith, le)) (omega (arith, lt)))
          (λ q le. beyond q (omega (arith, le)))))

pub copied-fresh :
    (fvd : Bool) (m : ℕ) (table : ℕ → Msi)
    → ((j : ℕ) → (table j).irq ≡ none)
    → (j : ℕ) → (copied fvd m table j).irq ≡ none
unfolding copied msi_fvd
copied-fresh false m table fresh j = fresh j
copied-fresh true m table fresh j = ground (arith, fresh j)

pub all_rounds : (m : ℕ) → m ≤ 32 → m + (32 - m) ≡ 32
all_rounds m le = omega (arith, le)
