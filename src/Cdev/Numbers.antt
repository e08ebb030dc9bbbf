-- ===== src/Cdev/Numbers.antt =====
-- That the number of a command, but for transfers up, says where its case gives something to user
-- space.
use bifrost_module.Base.{
  ◌⊎◌, ℕ, ◌≡◌, ◌<◌, refl, sym, ap, ◌∙◌, Bool, false, Option, none, some, List, [], ◌∷◌, ◌==◌,
  if◌then◌else◌, arith, Bool-cases, inl, inr, ==_refl,
}
use bifrost_module.UserDma.{Transfer, Direction}
use bifrost_module.Cdev.{Begin, Command, Given}
use bifrost_module.Cdev.Codes.{
  Code, Macro, Argument, Ioc, user_reads, nr, macro, argument, number, bifrost_ioc_magic, cases,
  case_in, case_of,
}

-- What the kernel's macros do for a magic and a command number of a byte.
pub record IsIoc (k : Ioc) : Type 0 where
  pub nrs :
      (m : Macro) (magic n : ℕ) (a : Argument)
      → magic < 256
      → n < 256
      → k.nr_of (k.ioc m magic n a) ≡ n
  pub macros :
      (m : Macro) (magic n : ℕ) (a : Argument)
      → magic < 256
      → n < 256
      → k.macro_of (k.ioc m magic n a) ≡ m

nr-lt : (c : Code) → nr c < 256
nr-lt Code.info = omega arith
nr-lt _ = omega arith

find_nr : List Code → ℕ → Option Code
find_nr [] n = none
find_nr (c ∷ cs) n = if nr c == n then some c else find_nr cs n

find_nr-nr : (c : Code) → find_nr cases (nr c) ≡ some c
unfolding find_nr
find_nr-nr Code.info = refl
find_nr-nr _ = refl

some_injective : (c d : Code) → some c ≡ some d → c ≡ d
some_injective c d e = cc

nr_injective : (c d : Code) → nr c ≡ nr d → c ≡ d
nr_injective c d e = some_injective c d (sym (find_nr-nr c) ∙ ap (find_nr cases) e ∙ find_nr-nr d)

module _ (k : Ioc) (is_ioc : IsIoc k) where
  nr_of-number : (c : Code) → k.nr_of (number k c) ≡ nr c
  nr_of-number c =
      is_ioc.nrs (macro c) bifrost_ioc_magic (nr c) (argument c) (omega arith) (nr-lt c)

  same_number : (c d : Code) → (number k d == number k c) ≡ (nr d == nr c)
  same_number c d = elim (Bool-cases (nr d == nr c)) [
    | inl e ↦ rw (e, ap (number k) (nr_injective d c (ground (arith, e)))) (==_refl (number k c))
    | inr e ↦ elim (Bool-cases (number k d == number k c)) [
      | inr f ↦ f ∙ sym e
      | inl f ↦
          let same : number k d ≡ number k c = ground (arith, f) in
          absurd (ground (arith, e, sym (nr_of-number d) ∙ ap k.nr_of same ∙ nr_of-number c))
    ]
  ]

  case_in-number : (cs : List Code) (c : Code) → case_in k cs (number k c) ≡ find_nr cs (nr c)
  unfolding case_in find_nr
  case_in-number [] c = refl
  case_in-number (d ∷ cs) c = rw (same_number c d, case_in-number cs c) refl

  -- The switch takes each number to its own case.
  pub case_of-number : (c : Code) → case_of k (number k c) ≡ some c
  unfolding case_of
  case_of-number c = case_in-number cases c ∙ find_nr-nr c

abbrev case_reads : Option Code → Bool
case_reads none = false
case_reads (some c) = user_reads (macro c)

-- Nothing, or the data of a transfer up.
abbrev pub OnlyUp : Command → Given → Type 0
OnlyUp c given =
    (given ≡ Given.nothing)
    ⊎ ((user : Bool) × (x : Transfer) × (b : Begin) × (c
          ≡ Command.start_dma user Direction.up_stream (some x) b)
        × (given ≡ Given.data_at x.system x.size))
