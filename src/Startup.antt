-- ===== src/Startup.antt =====
-- Initialisation and removal, as the resources of the kernel that they take and give back. The kernel's
-- answers are arguments; a ledger checks that what is given back was taken.
pub mod Each
pub mod AnimalInit
pub mod BifrostInit
pub mod BifrostClean
pub mod UsimInit
mod Tests
use mathlib.Core.List.{append_assoc}
use bifrost_module.Base.{
  ℕ, Bool, true, false, Option, none, some, List, [], ◌∷◌, ◌++◌, ◌&&◌, ◌==◌, if◌then◌else◌, Result,
  ok, err, All, ◌≡◌, refl, ==_refl, Option-cases, inl, inr, replay, replay-append, ◌∙◌,
}

-- A kind of resource, and which one of the kind.
pub data Resource : Type 0 where
  resource : (kind index : ℕ) → Resource

abbrev pub same : Resource → Resource → Bool
same (resource k i) (resource l j) = if k == l then i == j else false

-- What a function of the kernel does: it takes a resource, or gives one back.
pub data Act : Type 0 where
  take give : Resource → Act

-- What initialisation does and returns.
abbrev pub Trace : Type 0
Trace = List Act × Result ℕ

abbrev pub after : List Act → Trace → Trace
after acts (more, r) = (acts ++ more, r)

-- `rc == 0`
abbrev pub is_zero : Result ℕ → Bool
is_zero (ok n) = n == 0
is_zero (err e) = false

abbrev pub is_ok : Result ℕ → Bool
is_ok (ok n) = true
is_ok (err e) = false

-- One occurrence is taken out; `none` is one that is not there.
abbrev pub remove : Resource → List Resource → Option (List Resource)
remove r [] = none
remove r (x ∷ xs) =
    let rest = remove r xs in
    if same r x then some xs else elim rest [ none ↦ none | some ys ↦ some (x ∷ ys) ]

abbrev pub ledger : List Resource → Act → Option (List Resource)
ledger held (take r) = some (r ∷ held)
ledger held (give r) = remove r held

-- What is held in the end, after some acts from holding `held`.
abbrev pub left : List Resource → List Act → Option (List Resource)
left held acts = replay ledger (some held) acts

-- Initialisation, and the exit if it succeeded.
abbrev pub with_exit : Trace → List Act → List Act
with_exit (acts, ok n) exit = acts ++ exit
with_exit (acts, err e) exit = acts

-- Only what is held or was taken is given back, and in the end nothing is held.
abbrev pub IsClean : List Resource → List Act → Trace → Type 0
IsClean held exit t = left held (with_exit t exit) ≡ some []

pub after-Clean :
    (held held' : List Resource) (exit xs : List Act) (t : Trace)
    → left held xs ≡ some held'
    → IsClean held' exit t
    → IsClean held exit (after xs t)
after-Clean held held' exit xs (acts, ok n) e clean =
    rw (append_assoc xs acts exit)
      (replay-append ledger (some held) xs (acts ++ exit) ∙ rw (e) clean)
after-Clean held held' exit xs (acts, err n) e clean =
    replay-append ledger (some held) xs acts ∙ rw (e) clean

same_refl : (r : Resource) → same r r ≡ true
same_refl (resource k i) = rw (==_refl k, same) (==_refl i)

-- A resource differs from all those of a list.
abbrev pub Differs : Resource → List Resource → Type 0
Differs r xs = All (λ x. same r x ≡ false) xs

pub Differs-append :
    (r : Resource) (xs ys : List Resource) → Differs r xs → Differs r ys → Differs r (xs ++ ys)
Differs-append r [] ys p q = q
Differs-append r (x ∷ xs) ys (p, ps) q = (p, Differs-append r xs ys ps q)

-- A resource is found behind others that differ from it.
pub remove_behind :
    (r : Resource) (xs ys : List Resource)
    → Differs r xs
    → remove r (xs ++ r ∷ ys) ≡ some (xs ++ ys)
remove_behind r [] ys differ = rw (same_refl r) refl
remove_behind r (x ∷ xs) ys (d, ds) = rw (d, remove_behind r xs ys ds) refl
