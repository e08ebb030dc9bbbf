-- ===== src/Startup/Each.antt =====
-- Loops that take a resource of one kind for each index for which there is one, and loops that give
-- back those: over adapters (animal-i2c/i2c_main.c), memories and interrupts (bifrost/).
use mathlib.Core.List.{append_assoc, append-nil}
use bifrost_module.Base.{
  ℕ, zero, suc, ◌+◌, ◌<◌, Bool, true, false, some, List, [], ◌∷◌, ◌++◌, ◌==◌, ◌≡◌, refl, ==_refl,
  sym, ◌∙◌, ap, arith, replay, Bool-cases, inl, inr,
}
use bifrost_module.Startup.{
  Resource, resource, Act, take, give, same, left, ledger, remove, remove_behind, Differs,
  Differs-append,
}

abbrev pub when : Bool → Resource → List Resource
when true r = r ∷ []
when false r = []

abbrev pub take_if : Bool → Resource → List Act
take_if true r = take r ∷ []
take_if false r = []

abbrev pub give_if : Bool → Resource → List Act
give_if true r = give r ∷ []
give_if false r = []

-- `found i` says whether there is one for the index, with `n` rounds to go.
abbrev pub take_each : (k : ℕ) (found : ℕ → Bool) (n i : ℕ) → List Act
take_each k found zero i = []
take_each k found (suc n) i = take_if (found i) (resource k i) ++ take_each k found n (i + 1)

abbrev pub give_each : (k : ℕ) (found : ℕ → Bool) (n i : ℕ) → List Act
give_each k found zero i = []
give_each k found (suc n) i = give_if (found i) (resource k i) ++ give_each k found n (i + 1)

-- The resources that the loop has taken, the last one first.
abbrev pub each : (k : ℕ) (found : ℕ → Bool) (n i : ℕ) → List Resource
each k found zero i = []
each k found (suc n) i = each k found n (i + 1) ++ when (found i) (resource k i)

pub left-take_each :
    (k : ℕ) (found : ℕ → Bool) (n i : ℕ) (held : List Resource)
    → left held (take_each k found n i) ≡ some (each k found n i ++ held)
left-take_each k found zero i held = refl
left-take_each k found (suc n) i held = elim (Bool-cases (found i)) [
  | inl e ↦ rw (e) (
      left-take_each k found n (i + 1) (resource k i ∷ held)
      ∙ ap some (sym (append_assoc (each k found n (i + 1)) (resource k i ∷ []) held)))
  | inr e ↦ rw (e, append-nil (each k found n (i + 1))) (left-take_each k found n (i + 1) held)
]

<→==false : (i j : ℕ) → i < j → (i == j) ≡ false
<→==false i j lt = ground arith

when-Differs : (b : Bool) (r x : Resource) → same r x ≡ false → Differs r (when b x)
when-Differs true r x p = (p, tt)
when-Differs false r x p = tt

-- No resource of an index before `i` is among those from `i` on.
each-after :
    (k : ℕ) (found : ℕ → Bool) (n i j : ℕ) → j < i → Differs (resource k j) (each k found n i)
each-after k found zero i j lt = tt
each-after k found (suc n) i j lt =
    Differs-append (resource k j) (each k found n (i + 1)) (when (found i) (resource k i))
      (each-after k found n (i + 1) j (omega (arith, lt)))
      (when-Differs (found i) (resource k j) (resource k i)
        (rw (==_refl k, <→==false j i lt, same) refl))

remove-each :
    (k : ℕ) (found : ℕ → Bool) (n i : ℕ) (front held : List Resource)
    → ((j : ℕ) → Differs (resource k j) front)
    → remove (resource k i) (front ++ ((each k found n (i + 1) ++ resource k i ∷ []) ++ held))
      ≡ some (front ++ (each k found n (i + 1) ++ held))
remove-each k found n i front held differ =
    let later : List Resource = each k found n (i + 1) in
    rw
      (
        append_assoc later (resource k i ∷ []) held,
        sym (append_assoc front later (resource k i ∷ held)),
        sym (append_assoc front later held),
      )
      (remove_behind (resource k i) (front ++ later) held (
        Differs-append (resource k i) front later (differ i)
          (each-after k found n (i + 1) i (omega arith))))

pub left-give_each :
    (k : ℕ) (found : ℕ → Bool) (n i : ℕ) (front held : List Resource)
    → ((j : ℕ) → Differs (resource k j) front)
    → left (front ++ (each k found n i ++ held)) (give_each k found n i) ≡ some (front ++ held)
left-give_each k found zero i front held differ = refl
left-give_each k found (suc n) i front held differ = elim (Bool-cases (found i)) [
  | inl e ↦ rw (e) (
      ap (λ o. replay ledger o (give_each k found n (i + 1)))
        (remove-each k found n i front held differ)
      ∙ left-give_each k found n (i + 1) front held differ)
  | inr e ↦
      rw (e, append-nil (each k found n (i + 1)))
        (left-give_each k found n (i + 1) front held differ)
]
