-- ===== src/Base/Lists.antt =====
-- C arrays and kernel lists: lists measured by native numbers, and arrays as indexed families.
use Prim.Native.Nat.{ℕ, zero, suc, ◌+◌, ◌-◌, ◌<◌, ◌≤◌}
use mathlib.Core.Path.{◌≡◌, refl}
use mathlib.Core.List.{List, [], ◌∷◌, ◌++◌}
use mathlib.Core.Option.{Option, none, some}
use native.Mathlib.Omega.{arith}
use bifrost_module.Base.Tests.{◌==◌, if◌then◌else◌}

module _ {ℓ} {A : Type ℓ} where
  abbrev pub length : List A → ℕ
  length [] = 0
  length (x ∷ xs) = suc (length xs)

  abbrev pub get_elem? : List A → ℕ → Option A
  get_elem? [] i = none
  get_elem? (x ∷ xs) zero = some x
  get_elem? (x ∷ xs) (suc i) = get_elem? xs i

  pub length-append : (xs ys : List A) → length (xs ++ ys) ≡ length xs + length ys
  length-append [] ys = omega arith
  length-append (x ∷ xs) ys = omega (arith, length-append xs ys)

  abbrev pub take : ℕ → List A → List A
  take zero xs = []
  take (suc n) [] = []
  take (suc n) (x ∷ xs) = x ∷ take n xs

-- A fixed-size C array: the entry at each index. A write changes one entry.
abbrev pub update {ℓ} : {A : Type ℓ} → (ℕ → A) → ℕ → A → ℕ → A
update f i a j = if i == j then a else f j

-- A predicate that holds of every member.
abbrev pub All {ℓ κ} : {A : Type ℓ} → (A → Type κ) → List A → Type κ
All P [] = Unit
All P (x ∷ xs) = P x × All P xs

-- `memcpy`: the bytes of an array from an index, and the array with bytes stored from an index.
abbrev pub copy_out {ℓ} : {A : Type ℓ} → ℕ → ℕ → (ℕ → A) → List A
copy_out zero i d = []
copy_out (suc n) i d = d i ∷ copy_out n (i + 1) d

abbrev pub copy_in {ℓ} : {A : Type ℓ} → List A → ℕ → (ℕ → A) → ℕ → A
copy_in [] i d = d
copy_in (x ∷ xs) i d = update (copy_in xs (i + 1) d) i x

copy_out-update {ℓ} :
    {A : Type ℓ} (n i j : ℕ) (x : A) (d : ℕ → A)
    → i < j
    → copy_out n j (update d i x) ≡ copy_out n j d
copy_out-update zero i j x d lt = refl
copy_out-update (suc n) i j x d lt =
    ground (arith, copy_out-update n i (j + 1) x d (omega (arith, lt)))

pub copy_out-copy_in {ℓ} :
    {A : Type ℓ} (xs : List A) (i : ℕ) (d : ℕ → A) → copy_out (length xs) i (copy_in xs i d) ≡ xs
copy_out-copy_in [] i d = refl
copy_out-copy_in (x ∷ xs) i d = ground (
  arith,
  copy_out-update (length xs) i (i + 1) x (copy_in xs (i + 1) d) (omega arith),
  copy_out-copy_in xs (i + 1) d,
)

pub copy_in-before {ℓ} :
    {A : Type ℓ} (xs : List A) (i j : ℕ) (d : ℕ → A) → j < i → copy_in xs i d j ≡ d j
copy_in-before [] i j d lt = refl
copy_in-before (x ∷ xs) i j d lt = ground (arith, copy_in-before xs (i + 1) j d (omega (arith, lt)))

-- A monitor reads a list of observations; `none` is an observation that its state does not allow.
abbrev pub replay {ℓ κ} :
    {S : Type ℓ} {A : Type κ} → (S → A → Option S) → Option S → List A → Option S
replay f none xs = none
replay f (some s) [] = some s
replay f (some s) (x ∷ xs) = replay f (f s x) xs

pub replay-none {ℓ κ} :
    {S : Type ℓ} {A : Type κ} (f : S → A → Option S) (xs : List A) → replay f none xs ≡ none
replay-none f [] = refl
replay-none f (x ∷ xs) = refl

pub replay-append {ℓ κ} :
    {S : Type ℓ} {A : Type κ} (f : S → A → Option S) (s : Option S) (xs ys : List A)
    → replay f s (xs ++ ys) ≡ replay f (replay f s xs) ys
replay-append f none xs ys = rw (replay-none f (xs ++ ys), replay-none f ys) refl
replay-append f (some s) [] ys = refl
replay-append f (some s) (x ∷ xs) ys = replay-append f (f s x) xs ys

pub copy_out-copy_in_more {ℓ} :
    {A : Type ℓ} (xs : List A) (n i : ℕ) (d : ℕ → A)
    → length xs ≤ n
    → copy_out n i (copy_in xs i d) ≡ xs ++ copy_out (n - length xs) (i + length xs) d
copy_out-copy_in_more [] n i d le = ground arith
copy_out-copy_in_more (x ∷ xs) zero i d le = absurd (omega (arith, le))
copy_out-copy_in_more (x ∷ xs) (suc n) i d le = ground (
  arith,
  copy_out-update n i (i + 1) x (copy_in xs (i + 1) d) (omega arith),
  copy_out-copy_in_more xs n (i + 1) d (omega (arith, le)),
)
