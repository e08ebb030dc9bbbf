-- ===== src/Animal/Open.antt =====
-- Which adapter a handle of animal-i2c/i2c_main.c has: the first one there is after the opening, and
-- one that there is after any command.
use bifrost_module.Base.{
  ℕ, zero, suc, ◌+◌, ◌%◌, ◌^◌, ◌≤◌, ◌<◌, ◌≡◌, ◌≢◌, refl, subst, sym, ◌∙◌, ◌⊎◌, Bool-cases, true,
  Option, none, some, ◌==◌, arith, ok, err, efault, Option-cases, inl, inr,
}
use bifrost_module.Animal.{Device, Handle, first_adapter, animal_open}

-- The smallest index from `i` on with an adapter, or the end.
pub record IsFirst (adapter : ℕ → Option ℕ) (i n r : ℕ) : Type 0 where
  pub within : r ≤ n
  pub none_before : (j : ℕ) → i ≤ j → j < r → adapter j ≡ none
  pub found : r < n → adapter r ≢ none

zero_add : (n : ℕ) → 0 + n ≡ n
zero_add n = omega arith

==→≡ : (a b : ℕ) → (a == b) ≡ true → a ≡ b
==→≡ a b h = ground arith

some≢none : {a : ℕ} → some a ≢ none
some≢none e = grind arith

first_adapter-First :
    (adapter : ℕ → Option ℕ) (left i : ℕ)
    → IsFirst adapter i (i + left) (first_adapter adapter left i)
unfolding first_adapter
first_adapter-First adapter zero i = record {
  within = omega arith;
  none_before = λ j le lt. absurd (omega (arith, le, lt));
  found = λ lt. absurd (omega (arith, lt));
}
first_adapter-First adapter (suc left) i =
    let rest : IsFirst adapter (i + 1) (i + 1 + left) (first_adapter adapter left (i + 1)) =
      first_adapter-First adapter left (i + 1) in
    elim (Option-cases (adapter i)) [
      | inl e ↦
          rw (e, first_adapter)
            (record {
              within = omega (arith, rest.within);
              none_before = λ j le lt. elim (Bool-cases (i == j)) [
                | inl same ↦ rw (sym (==→≡ i j same)) e
                | inr differ ↦ rest.none_before j (ground (arith, le, differ)) lt
              ];
              found = λ lt. rest.found (omega (arith, lt));
            })
      | inr (a, e) ↦
          rw (e, first_adapter)
            (record {
              within = omega arith;
              none_before = λ j le lt. absurd (omega (arith, le, lt));
              found = λ lt missing. some≢none (sym e ∙ missing);
            })
    ]

-- The opening of the device when memory for the handle is given: either there is no adapter, and then
-- it fails with -EFAULT and the device as it was, or the handle has the first adapter there is, no
-- pin and the address 0, and the result is 0.
pub animal_open-First :
    (d : Device)
    → (((j : ℕ) → j < d.adapters → d.adapter j ≡ none)
        × (animal_open true d ≡ (d, none, err efault)))
      ⊎ ((h : Handle) × IsFirst d.adapter 0 d.adapters h.animal_adapter
          × (h.animal_adapter < d.adapters)
          × (h.gpio ≡ none)
          × (h.addr ≡ 0)
          × (animal_open true d ≡ (record d { users = (d.users + 1) % 2 ^ 32 }, some h, ok 0)))
unfolding animal_open
animal_open-First d =
    let i : ℕ = first_adapter d.adapter d.adapters 0 in
    let first : IsFirst d.adapter 0 d.adapters i =
      subst (λ n. IsFirst d.adapter 0 n i) (zero_add d.adapters)
        (first_adapter-First d.adapter d.adapters 0) in
    elim (Bool-cases (i == d.adapters)) [
      | inl e ↦
          inl (λ j lt. first.none_before j (omega arith) (rw (==→≡ i d.adapters e) lt), rw (e) refl)
      | inr e ↦ inr (
        record { gpio = none; animal_adapter = i; addr = 0 },
        first,
        ground (arith, e, first.within),
        refl,
        refl,
        rw (e) refl,
      )
    ]
