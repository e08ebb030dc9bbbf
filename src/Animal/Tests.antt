-- ===== src/Animal/Tests.antt =====
-- Runs of the I2C driver of user space, and its theorems at concrete inputs.
use bifrost_module.Base.{
  ℕ, ◌+◌, ◌≡◌, ◌==◌, if◌then◌else◌, refl, true, Option, none, some, [], ◌∷◌, replay, arith, ok,
}
use bifrost_module.Animal.{
  Device, Handle, Request, simulator_gpio_ops, mutex_lock, mutex_unlock, gpio_request, gpio_free,
  gpio_set, bus,
}
use bifrost_module.Animal.Ioctl.{Answer, do_animal_ioctl, gpio, smb_read8}
use bifrost_module.Animal.Watch.{Works, observe, idle}
use bifrost_module.Animal.Session.{Call, session, session-clean}

-- Two adapters, of which only the second was found.
abbrev second : ℕ → Option ℕ
second n = if n == 1 then some 7 else none

abbrev board : Device
board = record {
  info = 1 ∷ 1 ∷ 0 ∷ 1 ∷ [];
  adapters = 2;
  adapter = second;
  gpio_ops = simulator_gpio_ops;
  users = 0;
}

abbrev opened : Handle
opened = record { gpio = none; animal_adapter = 1; addr = 0x20 }

-- The core answers each request with 5 and the bytes 8 and 9.
abbrev core : Request → Answer
core r = record { rc = ok 5; bytes = 8 ∷ 9 ∷ [] }

abbrev stack : ℕ → ℕ
stack n = 100 + n

abbrev pin_call : Call
pin_call = record { block = stack; core = core; command = gpio (some (some 3)) }

abbrev read_call : Call
read_call = record { block = stack; core = core; command = smb_read8 (some 1) true }

-- A pin is set and a byte read.
run :
    session board opened (pin_call ∷ read_call ∷ [])
    ≡ gpio_request 3
      ∷ mutex_lock 1
      ∷ gpio_set 3 1
      ∷ bus 1 (Request.read_byte 0x20 1)
      ∷ gpio_set 3 0
      ∷ mutex_unlock 1
      ∷ gpio_free 3
      ∷ []
unfolding session do_animal_ioctl
run = refl

simulator-Works : Works simulator_gpio_ops
simulator-Works = record { valid = λ g. refl; directed = λ g. refl }

session-clean_example :
    replay observe (some (idle none)) (session board opened (pin_call ∷ read_call ∷ []))
    ≡ some (idle none)
session-clean_example =
    session-clean board opened (pin_call ∷ read_call ∷ []) simulator-Works
      ((λ e. grind arith), ((λ e. grind arith), tt))
