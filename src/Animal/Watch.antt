-- ===== src/Animal/Watch.antt =====
-- A monitor of the actions of animal-i2c/i2c_main.c: the locks, the chip selects and the pins that are
-- requested. The parts of a command keep it idle.
use bifrost_module.Base.{
  ℕ, Bool, true, false, Option, none, some, List, [], ◌∷◌, ◌++◌, ◌==◌, if◌then◌else◌, ◌≡◌, refl,
  ==_refl, ◌≢◌, ◌∙◌, arith, replay, replay-append, Result, ok, err, efault, einval, Result-cases,
  inl, inr,
}
use bifrost_module.Animal.{
  Device, Handle, Request, Action, GpioOps, Outcome, mutex_lock, mutex_unlock, gpio_request,
  gpio_free, gpio_set, bus, access, animal_i2c_xfer_begin, animal_i2c_xfer_done, select, returns,
  free_pin, set_address, set_gpio, same_pin, change_pin, pin_set, animal_gpio_init,
  direction_result, set_adapter, adapter_set,
}
use bifrost_module.Animal.Ioctl.{accessed, given, with_user, with_bytes}

-- The adapter whose lock is held, the pin that is selected, and the pin that is requested.
pub record Watch : Type 0 where
  pub held : Option ℕ
  pub selected : Option ℕ
  pub owned : Option ℕ

unfoldable pub idle : Option ℕ → Watch
idle own = record { held = none; selected = none; owned = own }

-- Only a lock that is not held is taken, and only one that is held is given back, with no pin
-- selected. The bus is used under the lock, with the pin selected that is requested.
unfoldable pub is_some : Option ℕ → ℕ → Bool
is_some none n = false
is_some (some m) n = m == n

unfoldable pub is_none : Option ℕ → Bool
is_none none = true
is_none (some m) = false

unfoldable pub observe : Watch → Action → Option Watch
unfolding is_some is_none
observe w (mutex_lock a) = if is_none w.held then some (record w { held = some a }) else none
observe w (mutex_unlock a) =
    if is_some w.held a
    then if is_none w.selected then some (record w { held = none }) else none
    else none
observe w (gpio_request g) =
    if is_none w.held
    then if is_none w.owned then some (record w { owned = some g }) else none
    else none
observe w (gpio_free g) =
    if is_none w.held
    then if is_some w.owned g then some (record w { owned = none }) else none
    else none
observe w (gpio_set g v) =
    if is_none w.held
    then none
    else if is_some w.owned g
    then some (record w { selected = if v == 0 then none else some g })
    else none
observe w (bus a r) =
    if is_some w.held a then if same_pin w.selected w.owned then some w else none else none

-- Each pin is valid, and its direction can be set. A request may fail.
pub record Works (ops : GpioOps) : Type 0 where
  pub valid : (g : ℕ) → (ops.is_valid g == 0) ≡ false
  pub directed : (g : ℕ) → ops.direction_output g 0 ≡ ok 0

unfoldable pub IsKept : Handle → Outcome → Type 0
IsKept h o = replay observe (some (idle h.gpio)) o.actions ≡ some (idle o.handle.gpio)

is_some_same : (g : ℕ) → is_some (some g) g ≡ true
unfolding is_some
is_some_same g = ground arith

same_pin_same : (own : Option ℕ) → same_pin own own ≡ true
unfolding same_pin
same_pin_same none = refl
same_pin_same (some g) = ground arith

pub access-Kept :
    (h : Handle) (r : Request)
    → replay observe (some (idle h.gpio)) (access h r) ≡ some (idle h.gpio)
unfolding access animal_i2c_xfer_begin animal_i2c_xfer_done select idle observe is_none same_pin
access-Kept h r =
    elim h.gpio
      as (λ own.
        replay observe (some (idle own)) (access (record h { gpio = own }) r) ≡ some (idle own)) [
          | none ↦ rw (==_refl h.animal_adapter, replay) rw (==_refl h.animal_adapter, replay) refl
          | some g ↦
              rw (==_refl g, replay) rw (==_refl h.animal_adapter, replay) rw (==_refl g, replay) rw
                (==_refl g, replay) rw (==_refl h.animal_adapter, replay) refl
        ]

pub accessed-Kept :
    (h : Handle) (r : Request) (out : List ℕ) (rc : Result ℕ) → IsKept h (accessed h r out rc)
unfolding accessed IsKept
accessed-Kept h r out rc = access-Kept h r

pub returns-Kept : (h : Handle) (r : Result ℕ) → IsKept h (returns h r)
unfolding returns IsKept
returns-Kept h r = refl

pub given-Kept :
    (h : Handle) (r : Request) (out : List ℕ) (put : Bool) (rc : Result ℕ)
    → IsKept h (given h r out put rc)
unfolding given
given-Kept h r out put (err e) = accessed-Kept h r [] (err e)
given-Kept h r out false (ok rc) = accessed-Kept h r [] _
given-Kept h r out true (ok rc) = accessed-Kept h r out _

pub with_user-Kept :
    (h : Handle) (n : Option ℕ) (f : ℕ → Outcome)
    → ((m : ℕ) → IsKept h (f m))
    → IsKept h (with_user h n f)
unfolding with_user
with_user-Kept h none f kept = returns-Kept h _
with_user-Kept h (some m) f kept = kept m

pub with_bytes-Kept :
    (h : Handle) (xs : Option (List ℕ)) (f : List ℕ → Outcome)
    → ((ys : List ℕ) → IsKept h (f ys))
    → IsKept h (with_bytes h xs f)
unfolding with_bytes
with_bytes-Kept h none f kept = returns-Kept h _
with_bytes-Kept h (some ys) f kept = kept ys

pub if-Kept :
    (h : Handle) (b : Bool) (o o' : Outcome)
    → IsKept h o
    → IsKept h o'
    → IsKept h (if b then o else o')
if-Kept h true o o' k k' = k
if-Kept h false o o' k k' = k'

pub set_address-Kept : (h : Handle) (n : Option ℕ) → IsKept h (set_address h n)
unfolding set_address IsKept
set_address-Kept h none = returns-Kept h (err efault)
set_address-Kept h (some addr) = returns-Kept (record h { addr = addr }) (ok 0)

adapter_set-Kept : (h : Handle) (n : ℕ) (a : Option ℕ) → IsKept h (adapter_set h n a)
unfolding adapter_set IsKept
adapter_set-Kept h n none = returns-Kept h (err einval)
adapter_set-Kept h n (some a) = returns-Kept (record h { animal_adapter = n }) (ok 0)

pub set_adapter-Kept :
    (d : Device) (h : Handle) (n : Option (Option ℕ)) → IsKept h (set_adapter d h n)
unfolding set_adapter
set_adapter-Kept d h none = returns-Kept h _
set_adapter-Kept d h (some none) = returns-Kept h _
set_adapter-Kept d h (some (some n)) =
    if-Kept h _ _ _ (returns-Kept h _) (adapter_set-Kept h n (d.adapter n))

pub free_pin-Kept :
    (own : Option ℕ) → replay observe (some (idle own)) (free_pin own) ≡ some (idle none)
unfolding free_pin idle observe is_none
free_pin-Kept none = refl
free_pin-Kept (some g) = rw (is_some_same g, replay) refl

-- The request of a pin, after the pin of before is given back.
requested-Kept :
    (own : Option ℕ) (n : ℕ)
    → replay observe (some (idle own)) (free_pin own ++ gpio_request n ∷ []) ≡ some (idle (some n))
unfolding idle observe is_none
requested-Kept own n =
    replay-append observe (some (idle own)) (free_pin own) (gpio_request n ∷ [])
    ∙ rw (free_pin-Kept own) refl

freed-Kept :
    (own : Option ℕ) → replay observe (some (idle own)) (free_pin own ++ []) ≡ some (idle none)
freed-Kept own =
    replay-append observe (some (idle own)) (free_pin own) [] ∙ rw (free_pin-Kept own) refl

animal_gpio_init-Kept :
    (ops : GpioOps) (h : Handle) (n : ℕ)
    → Works ops
    → IsKept h (pin_set h n (free_pin h.gpio) (animal_gpio_init ops n 0 0))
unfolding animal_gpio_init IsKept pin_set direction_result
animal_gpio_init-Kept ops h n works = rw (works.valid n) elim (Result-cases (ops.request n)) [
  | inl (rc, e) ↦ rw (e, works.directed n) (requested-Kept h.gpio n)
  | inr (rc, e) ↦ rw (e) (freed-Kept h.gpio)
]

pub set_gpio-Kept :
    (d : Device) (h : Handle) (n : Option (Option ℕ))
    → Works d.gpio_ops
    → n ≢ some none
    → IsKept h (set_gpio d h n)
unfolding set_gpio change_pin
set_gpio-Kept d h none works pin = returns-Kept h (err efault)
set_gpio-Kept d h (some none) works pin = absurd (pin refl)
set_gpio-Kept d h (some (some n)) works pin =
    if-Kept h (same_pin (some n) h.gpio) _ _ (returns-Kept h (ok 0))
      (animal_gpio_init-Kept d.gpio_ops h n works)
