-- ===== src/Animal.antt =====
-- The I2C driver of user space, animal-i2c/i2c_main.c: handles, chip select by GPIO, and the locks
-- of the adapters. What a call asks of the kernel is recorded as a list of actions; what user space
-- and the bus answer are arguments.
pub mod Ioctl
pub mod Watch
pub mod Session
pub mod Transfers
pub mod Open
pub mod Tests
use bifrost_module.Base.{
  ℕ, zero, suc, ◌+◌, ◌-◌, ◌%◌, ◌^◌, Bool, true, false, Option, none, some, List, [], ◌∷◌, ◌++◌, ltb,
  leb, ◌==◌, if◌then◌else◌, Result, ok, err, efault, einval, enomem,
}

-- `struct i2c_msg`: `bytes` are those to write, or the number of bytes to read.
pub data Msg : Type 0 where
  write_msg : (addr : ℕ) (bytes : List ℕ) → Msg
  read_msg : (addr len : ℕ) → Msg

-- The calls of the I2C core, with the address of the client.
pub data Request : Type 0 where
  read_byte : (addr command : ℕ) → Request
  write_byte : (addr command byte : ℕ) → Request
  read_word : (addr command : ℕ) → Request
  write_word : (addr command word : ℕ) → Request
  read_block : (addr command : ℕ) → Request
  write_block : (addr command : ℕ) (bytes : List ℕ) → Request
  transfer : List Msg → Request

-- An adapter is known by its index in `animal_adapter`, also as the owner of its lock.
pub data Action : Type 0 where
  mutex_lock : (adapter : ℕ) → Action
  mutex_unlock : (adapter : ℕ) → Action
  gpio_request : (gpio : ℕ) → Action
  gpio_free : (gpio : ℕ) → Action
  gpio_set : (gpio value : ℕ) → Action
  bus : (adapter : ℕ) → Request → Action

-- `struct animal_gpio_operations`, the functions with a result. `is_valid` is 0 or not; a
-- direction is set by `direction_input`, or by `direction_output` with a value.
pub record GpioOps : Type 0 where
  pub is_valid : ℕ → ℕ
  pub request : ℕ → Result ℕ
  pub direction_input : ℕ → Result ℕ
  pub direction_output : (gpio value : ℕ) → Result ℕ

-- The operations of the simulator do nothing, and succeed.
abbrev pub simulator_gpio_ops : GpioOps
simulator_gpio_ops = record {
  is_valid = λ gpio. 1;
  request = λ gpio. ok 0;
  direction_input = λ gpio. ok 0;
  direction_output = λ gpio value. ok 0;
}

-- `struct animal_device`; `info` is the bytes of its `struct animal_i2c_info`, `adapter` gives the I2C adapter of an index, if it was found.
pub record Device : Type 0 where
  pub info : List ℕ
  pub adapters : ℕ
  pub adapter : ℕ → Option ℕ
  pub gpio_ops : GpioOps
  pub users : ℕ

-- `struct animal_user_handle`; a negative `gpio` is `none`. The client's adapter is that of
-- `animal_adapter`.
pub record Handle : Type 0 where
  pub gpio : Option ℕ
  pub animal_adapter : ℕ
  pub addr : ℕ

-- The second part of a result that is not 0 is an error.
pub direction_result : Result ℕ → Result ℕ
direction_result (ok rc) = if rc == 0 then ok 0 else ok rc
direction_result (err e) = err e

-- A pin that is not valid ends the function with the result of `is_valid`, which is 0.
pub animal_gpio_init : GpioOps → (gpio direction value : ℕ) → List Action × Result ℕ
unfolding direction_result
animal_gpio_init ops gpio direction value =
    if ops.is_valid gpio == 0 then ([], ok 0) else elim (ops.request gpio) [
      | err e ↦ ([], err e)
      | ok _ ↦ (
        gpio_request gpio ∷ [],
        direction_result
            (if direction == 0 then ops.direction_output gpio value else ops.direction_input gpio),
      )
    ]

-- The chip select of a handle, if it has one.
pub select : Handle → (value : ℕ) → List Action
select h value = elim h.gpio [ none ↦ [] | some g ↦ gpio_set g value ∷ [] ]

pub animal_i2c_xfer_begin : Handle → List Action
unfolding select
animal_i2c_xfer_begin h = mutex_lock h.animal_adapter ∷ select h 1

pub animal_i2c_xfer_done : Handle → List Action
unfolding select
animal_i2c_xfer_done h = select h 0 ++ mutex_unlock h.animal_adapter ∷ []

-- A call of the I2C core between the two.
pub access : Handle → Request → List Action
unfolding animal_i2c_xfer_begin animal_i2c_xfer_done
access h r = animal_i2c_xfer_begin h ++ bus h.animal_adapter r ∷ animal_i2c_xfer_done h

-- What a call leaves: the handle, the actions, what it gave to user space, and the result.
pub record Outcome : Type 0 where
  pub handle : Handle
  pub actions : List Action
  pub out : List ℕ
  pub result : Result ℕ

-- A call that touches neither the bus nor the pins.
pub returns : Handle → Result ℕ → Outcome
returns h r = record { handle = h; actions = []; out = []; result = r }

-- `none` is a failed `get_user`.
pub set_address : Handle → Option ℕ → Outcome
unfolding returns
set_address h none = returns h (err efault)
set_address h (some addr) = returns (record h { addr = addr }) (ok 0)

pub free_pin : Option ℕ → List Action
free_pin none = []
free_pin (some g) = gpio_free g ∷ []

-- The end of a change of pin: the handle has the new one only if its set-up gave 0.
pub pin_set : Handle → (gpio : ℕ) → List Action → List Action × Result ℕ → Outcome
pin_set h gpio freed (acts, ok zero) = record {
  handle = record h { gpio = some gpio };
  actions = freed ++ acts;
  out = [];
  result = ok 0;
}
pin_set h gpio freed (acts, ok (suc rc)) = record {
  handle = record h { gpio = none };
  actions = freed ++ acts;
  out = [];
  result = err einval;
}
pin_set h gpio freed (acts, err e) = record {
  handle = record h { gpio = none };
  actions = freed ++ acts;
  out = [];
  result = err einval;
}

-- Whether the pin that is asked for is the one that the handle has; all negative ones are alike.
pub same_pin : Option ℕ → Option ℕ → Bool
same_pin none none = true
same_pin none (some g) = false
same_pin (some n) none = false
same_pin (some n) (some g) = n == g

pub change_pin : Device → Handle → Option ℕ → Outcome
unfolding free_pin pin_set animal_gpio_init
change_pin d h none = record { handle = h; actions = free_pin h.gpio; out = []; result = ok 0 }
change_pin d h (some n) = pin_set h n (free_pin h.gpio) (animal_gpio_init d.gpio_ops n 0 0)

-- The outer `none` is a failed `get_user`, the inner one a negative number.
pub set_gpio : Device → Handle → Option (Option ℕ) → Outcome
unfolding returns same_pin change_pin
set_gpio d h none = returns h (err efault)
set_gpio d h (some pin) = if same_pin pin h.gpio then returns h (ok 0) else change_pin d h pin

pub adapter_set : Handle → ℕ → Option ℕ → Outcome
unfolding returns
adapter_set h n none = returns h (err einval)
adapter_set h n (some adapter) = returns (record h { animal_adapter = n }) (ok 0)

-- `adapters - 1` is computed on an `unsigned int`.
pub set_adapter : Device → Handle → Option (Option ℕ) → Outcome
unfolding returns adapter_set
set_adapter d h none = returns h (err efault)
set_adapter d h (some none) = returns h (err einval)
set_adapter d h (some (some n)) =
    if ltb ((d.adapters + 2 ^ 32 - 1) % 2 ^ 32) n
    then returns h (err einval)
    else adapter_set h n (d.adapter n)

-- The loop of animal_open over the adapters, with `left` rounds to go.
first_adapter : (ℕ → Option ℕ) → (left i : ℕ) → ℕ
first_adapter adapter zero i = i
first_adapter adapter (suc left) i =
    let rest = first_adapter adapter left (i + 1) in elim (adapter i) [ none ↦ rest | some a ↦ i ]

-- `memory` says whether `kzalloc` gives memory for the handle.
pub animal_open : (memory : Bool) → Device → Device × Option Handle × Result ℕ
unfolding first_adapter
animal_open false d = (d, none, err enomem)
animal_open true d =
    let i = first_adapter d.adapter d.adapters 0 in
    if i == d.adapters then (d, none, err efault) else (
      record d { users = (d.users + 1) % 2 ^ 32 },
      some (record { gpio = none; animal_adapter = i; addr = 0 }),
      ok 0,
    )

pub animal_release : Handle → List Action
unfolding free_pin
animal_release h = free_pin h.gpio
