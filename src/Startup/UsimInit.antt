-- ===== src/Startup/UsimInit.antt =====
-- i2c_usim_init and i2c_usim_exit of animal-i2c/i2c_usim.c.
use bifrost_module.Base.{
  ℕ, Bool, true, false, none, List, [], ◌∷◌, if◌then◌else◌, Result, ok, err, einval, ◌≡◌, refl,
  Bool-cases, Result-cases, inl, inr,
}
use bifrost_module.Startup.{
  Resource, resource, Act, Trace, take, give, after, left, with_exit, IsClean,
}

abbrev pub adapter : Resource
adapter = resource 0 0

abbrev pub proc_entry : Resource
proc_entry = resource 1 0

abbrev pub char_device : Resource
char_device = resource 2 0

-- `old_kernel` is a kernel before 3.10, for which alone the entry in /proc is created.
pub record Answers : Type 0 where
  pub old_kernel : Bool
  pub add_adapter : Result ℕ
  pub create_proc : Bool
  pub register_chrdev : Result ℕ

pub with_entry : Answers → Trace
with_entry a = elim a.register_chrdev [
  | err e ↦ (give proc_entry ∷ give adapter ∷ [], err e)
  | ok major ↦ (take char_device ∷ [], ok 0)
]

pub with_adapter : Answers → Trace
unfolding with_entry
with_adapter a =
    if a.old_kernel
    then (if a.create_proc
        then after (take proc_entry ∷ []) (with_entry a)
        else (give adapter ∷ [], err einval))
    else with_entry a

unfoldable pub i2c_usim_init : Answers → Trace
unfolding with_adapter
i2c_usim_init a = elim a.add_adapter [
  | err e ↦ ([], err e)
  | ok nr ↦ after (take adapter ∷ []) (with_adapter a)
]

unfoldable pub i2c_usim_exit : List Act
i2c_usim_exit = give char_device ∷ give proc_entry ∷ give adapter ∷ []

-- On a kernel before 3.10, initialisation gives back all that it took if it fails, and the exit all of
-- it if it succeeds.
i2c_usim_init-Clean :
    (a : Answers) → a.old_kernel ≡ true → IsClean [] i2c_usim_exit (i2c_usim_init a)
unfolding i2c_usim_init i2c_usim_exit
i2c_usim_init-Clean a old = elim (Result-cases a.add_adapter) [
  | inr (e, f) ↦ rw (f) refl
  | inl (nr, f) ↦
      rw (f, old)
        elim (Bool-cases a.create_proc) [
          | inr g ↦ rw (g) refl
          | inl g ↦ rw (g) elim (Result-cases a.register_chrdev) [
            | inr (e, k) ↦ rw (k) refl
            | inl (major, k) ↦ rw (k) refl
          ]
        ]
]

-- On a newer kernel, an entry in /proc is removed that was never created, once the adapter is added.
i2c_usim_init-removes :
    (a : Answers) (nr : ℕ)
    → a.old_kernel ≡ false
    → a.add_adapter ≡ ok nr
    → left [] (with_exit (i2c_usim_init a) i2c_usim_exit) ≡ none
unfolding i2c_usim_init i2c_usim_exit
i2c_usim_init-removes a nr new added =
    rw (new, added)
      elim (Result-cases a.register_chrdev) [
        | inr (e, k) ↦ rw (k) refl
        | inl (major, k) ↦ rw (k) refl
      ]
