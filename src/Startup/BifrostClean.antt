-- ===== src/Startup/BifrostClean.antt =====
-- What bifrost_init and bifrost_exit of bifrost/bifrost_main.c take and give back.
use bifrost_module.Base.{
  ℕ, Bool, true, false, some, List, [], ◌∷◌, ◌++◌, if◌then◌else◌, err, ◌≡◌, refl, Bool-cases, inl,
  inr,
}
use bifrost_module.Startup.{Resource, resource, Act, Trace, give, is_zero, left}
use bifrost_module.Startup.Each.{each}
use bifrost_module.Startup.BifrostInit.{
  Answers, device_memory, work_pool, work_queue, platform_device, maps, bifrost_fvd_init,
  bifrost_membus_init, bifrost_membus_exit, bifrost_pci_init, bifrost_pci_exit, bifrost_cdev_init,
  with_queue, bifrost_init,
}

-- The memories that are mapped, the last one first, on what is held before.
abbrev regions : Answers → List Resource → List Resource
regions a held = each 10 (maps a) 6 0 ++ held

abbrev base : List Resource
base = work_queue ∷ work_pool ∷ device_memory ∷ []

-- What initialisation of the platform device leaves, if all its pins are valid.
pub fvd_init-left :
    (a : Answers) (held : List Resource)
    → a.platform ≡ true
    → ((n : ℕ) → a.valid n ≡ true)
    → left held (bifrost_fvd_init a).0
      ≡ (if is_zero (bifrost_fvd_init a).1 then some (platform_device ∷ held) else some held)
unfolding bifrost_fvd_init
fvd_init-left a held platform valid =
    rw (platform, valid 0, valid 1, valid 2)
      elim (Bool-cases (is_zero (a.request_irq 0))) [
        | inr e ↦ rw (e) rw (e) refl
        | inl e ↦ rw (e) elim (Bool-cases (is_zero (a.request_irq 1))) [
          | inr f ↦ rw (f) rw (f) refl
          | inl f ↦ rw (f) elim (Bool-cases (is_zero (a.request_irq 2))) [
            | inr g ↦ rw (g) rw (g) refl
            | inl g ↦ rw (g) refl
          ]
        ]
      ]

-- What is given back when the bus is gone.
abbrev last : List Act
last = give work_queue ∷ give work_pool ∷ give device_memory ∷ []

bus_exit : Bool → Answers → List Act
bus_exit true a = bifrost_membus_exit a
bus_exit false a = bifrost_pci_exit

bus_init : Bool → Answers → Trace
bus_init true a = bifrost_membus_init a
bus_init false a = bifrost_pci_init a

-- On the memory bus, with everything there but a number for the character device: initialisation fails
-- and keeps the platform device, whose interrupts are requested, and the mapped memories, while the
-- device structure that the interrupts are given is freed.
pub bifrost_init-kept :
    (a : Answers) (e : ℕ)
    → a.memory ≡ true
    → a.pool ≡ true
    → a.queue ≡ true
    → a.membus ≡ true
    → a.platform ≡ true
    → ((n : ℕ) → a.mapped n ≡ true)
    → ((n : ℕ) → a.valid n ≡ true)
    → ((n : ℕ) → is_zero (a.request_irq n) ≡ true)
    → a.alloc_region ≡ err e
    → left [] (bifrost_init a).0 ≡ some (platform_device ∷ resource 10 1 ∷ resource 10 0 ∷ [])
unfolding bifrost_init with_queue bifrost_membus_init bifrost_fvd_init bifrost_cdev_init
bifrost_init-kept a e memory pool queue membus platform mapped valid requested alloc =
    rw (memory, pool, queue, membus, mapped 0, mapped 1) rw
      (platform, valid 0, requested 0, valid 1, requested 1, valid 2, requested 2, alloc) refl
