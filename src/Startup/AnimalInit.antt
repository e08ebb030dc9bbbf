-- ===== src/Startup/AnimalInit.antt =====
-- animal_init and animal_exit of animal-i2c/i2c_main.c.
use bifrost_module.Base.{
  ℕ, zero, suc, ◌+◌, Bool, true, false, Option, none, some, List, [], ◌∷◌, ◌++◌, ◌&&◌,
  if◌then◌else◌, Result, ok, err, eperm, enomem, ◌≡◌, refl, ◌∙◌, ap, replay, replay-append,
  Bool-cases, inl, inr,
}
use bifrost_module.Startup.{
  Resource, Differs, resource, Act, Trace, take, give, after, is_zero, left, ledger, IsClean,
  after-Clean,
}
use bifrost_module.Startup.Each.{take_each, give_each, each, left-take_each, left-give_each}

-- `animal_dev`, its array of adapters, the I2C driver, the device number and the character device.
abbrev pub device_memory : Resource
device_memory = resource 0 0

abbrev pub adapter_array : Resource
adapter_array = resource 1 0

abbrev pub i2c_driver : Resource
i2c_driver = resource 2 0

abbrev pub device_number : Resource
device_number = resource 3 0

abbrev pub char_device : Resource
char_device = resource 4 0

-- The module parameters, of which a negative `sim_adap_nr` is `none`, and the kernel's answers.
-- The kind of the references that `i2c_get_adapter` gives is 10.
pub record Answers : Type 0 where
  pub adapters : ℕ
  pub simulator : Bool
  pub sim_adap_nr : Option ℕ
  pub memory : Bool
  pub array : Bool
  pub found : ℕ → Bool
  pub add_driver : Result ℕ
  pub register_region : Result ℕ
  pub add_cdev : Result ℕ

-- The number that the loop asks for, of a simulator or its own.
abbrev pub found_at : (ℕ → Bool) → Option ℕ → ℕ → Bool
found_at found none i = found i
found_at found (some nr) i = found nr

abbrev pub found_in : Answers → ℕ → Bool
found_in a = found_at a.found (if a.simulator then a.sim_adap_nr else none)

abbrev pub is_negative : Option ℕ → Bool
is_negative none = true
is_negative (some nr) = false

-- The labels at the end, each of which falls through to the next.
abbrev pub err_alloc_adapter : List Act
err_alloc_adapter = give device_memory ∷ []

abbrev pub err_get_adapter : (ℕ → Bool) → ℕ → List Act
err_get_adapter found n = give_each 10 found n 0 ++ give adapter_array ∷ err_alloc_adapter

abbrev pub err_chrdev : (ℕ → Bool) → ℕ → List Act
err_chrdev found n = give i2c_driver ∷ err_get_adapter found n

abbrev pub err_cdev_add : (ℕ → Bool) → ℕ → List Act
err_cdev_add found n = give device_number ∷ err_chrdev found n

pub with_region : Answers → Trace
with_region a =
    if is_zero a.add_cdev
    then (take char_device ∷ [], ok 0)
    else (err_cdev_add (found_in a) a.adapters, err eperm)

pub with_driver : Answers → Trace
unfolding with_region
with_driver a =
    if is_zero a.register_region
    then after (take device_number ∷ []) (with_region a)
    else (err_chrdev (found_in a) a.adapters, err eperm)

pub with_adapters : Answers → Trace
unfolding with_driver
with_adapters a =
    if is_zero a.add_driver
    then after (take i2c_driver ∷ []) (with_driver a)
    else (err_get_adapter (found_in a) a.adapters, err eperm)

pub with_array : Answers → Trace
unfolding with_adapters
with_array a =
    if a.simulator && is_negative a.sim_adap_nr
    then (err_get_adapter (λ i. false) a.adapters, err eperm)
    else after (take_each 10 (found_in a) a.adapters 0) (with_adapters a)

pub with_device : Answers → Trace
unfolding with_array
with_device a =
    if a.array
    then after (take adapter_array ∷ []) (with_array a)
    else (err_alloc_adapter, err eperm)

unfoldable pub animal_init : Answers → Trace
unfolding with_device
animal_init a =
    if a.memory then after (take device_memory ∷ []) (with_device a) else ([], err enomem)

unfoldable pub animal_exit : Answers → List Act
animal_exit a =
    give char_device ∷ give device_number ∷ give_each 10 (found_in a) a.adapters 0
    ++ give i2c_driver ∷ give adapter_array ∷ give device_memory ∷ []

put_rest :
    (a : Answers) (front held : List Resource) (rest : List Act)
    → ((j : ℕ) → Differs (resource 10 j) front)
    → left
        (front ++ (each 10 (found_in a) a.adapters 0 ++ held))
        (give_each 10 (found_in a) a.adapters 0 ++ rest)
      ≡ left (front ++ held) rest
put_rest a front held rest differ =
    replay-append ledger (some (front ++ (each 10 (found_in a) a.adapters 0 ++ held)))
      (give_each 10 (found_in a) a.adapters 0) rest
    ∙ ap (λ o. replay ledger o rest) (left-give_each 10 (found_in a) a.adapters 0 front held differ)

-- What is held once the adapters are there.
abbrev holding : Answers → List Resource
holding a = each 10 (found_in a) a.adapters 0 ++ (adapter_array ∷ device_memory ∷ [])

unwound : (a : Answers) → left (holding a) (err_get_adapter (found_in a) a.adapters) ≡ some []
unwound a =
    put_rest a [] (adapter_array ∷ device_memory ∷ []) (give adapter_array ∷ err_alloc_adapter)
      (λ j. tt)

with_region-Clean :
    (a : Answers) → IsClean (device_number ∷ i2c_driver ∷ holding a) (animal_exit a) (with_region a)
unfolding with_region animal_exit
with_region-Clean a = elim (Bool-cases (is_zero a.add_cdev)) [
  | inl e ↦ rw (e) (
      put_rest a (i2c_driver ∷ []) (adapter_array ∷ device_memory ∷ [])
        (give i2c_driver ∷ give adapter_array ∷ give device_memory ∷ []) (λ j. (refl, tt)))
  | inr e ↦ rw (e) (unwound a)
]

with_driver-Clean : (a : Answers) → IsClean (i2c_driver ∷ holding a) (animal_exit a) (with_driver a)
unfolding with_driver
with_driver-Clean a = elim (Bool-cases (is_zero a.register_region)) [
  | inl e ↦ rw (e) (
      after-Clean _ _ (animal_exit a) (take device_number ∷ []) (with_region a) refl
        (with_region-Clean a))
  | inr e ↦ rw (e) (unwound a)
]

with_adapters-Clean : (a : Answers) → IsClean (holding a) (animal_exit a) (with_adapters a)
unfolding with_adapters
with_adapters-Clean a = elim (Bool-cases (is_zero a.add_driver)) [
  | inl e ↦ rw (e) (
      after-Clean _ _ (animal_exit a) (take i2c_driver ∷ []) (with_driver a) refl
        (with_driver-Clean a))
  | inr e ↦ rw (e) (unwound a)
]

put_none : (n i : ℕ) → give_each 10 (λ i. false) n i ≡ []
put_none zero i = refl
put_none (suc n) i = put_none n (i + 1)

with_array-Clean :
    (a : Answers) → IsClean (adapter_array ∷ device_memory ∷ []) (animal_exit a) (with_array a)
unfolding with_array
with_array-Clean a = elim (Bool-cases (a.simulator && is_negative a.sim_adap_nr)) [
  | inl e ↦ rw (e, put_none a.adapters 0) refl
  | inr e ↦ rw (e) (
      after-Clean _ _ (animal_exit a) (take_each 10 (found_in a) a.adapters 0) (with_adapters a)
        (left-take_each 10 (found_in a) a.adapters 0 (adapter_array ∷ device_memory ∷ []))
        (with_adapters-Clean a))
]

with_device-Clean : (a : Answers) → IsClean (device_memory ∷ []) (animal_exit a) (with_device a)
unfolding with_device animal_exit
with_device-Clean a = elim (Bool-cases a.array) [
  | inl e ↦ rw (e) (
      after-Clean _ _ (animal_exit a) (take adapter_array ∷ []) (with_array a) refl
        (with_array-Clean a))
  | inr e ↦ rw (e) refl
]

-- Whatever the kernel answers and whichever adapters there are, initialisation gives back all that it
-- took if it fails; and if it succeeds, the exit gives back all of it. Nothing is given back twice.
pub animal_init-Clean : (a : Answers) → IsClean [] (animal_exit a) (animal_init a)
unfolding animal_init animal_exit
animal_init-Clean a = elim (Bool-cases a.memory) [
  | inl e ↦ rw (e) (
      after-Clean [] _ (animal_exit a) (take device_memory ∷ []) (with_device a) refl
        (with_device-Clean a))
  | inr e ↦ rw (e) refl
]
