-- ===== src/Memories/Regions.antt =====
-- Which memories setup_io_regions maps, on either bus, and that remove_io_regions unmaps just those.
use bifrost_module.Base.{
  ℕ, zero, suc, ◌+◌, ◌*◌, ◌≤◌, ◌<◌, ◌≡◌, refl, Bool, true, false, not, ltb, leb, ◌&&◌, [], ◌∷◌,
  ◌++◌, ◌==◌, if◌then◌else◌, arith, update, ap, ap₂, Bool-cases, inl, inr,
}
use bifrost_module.Device.{Memory}
use bifrost_module.Startup.{resource, give, is_zero}
use bifrost_module.Startup.Each.{take_each, give_each, take_if, give_if}
use bifrost_module.Startup.BifrostInit.{count}
use bifrost_module.Memories.{
  Bus, Resources, pci_bus, membus, cs0_base_addr, setup_from, remove_from,
}

-- What the two functions of a bus make of a BAR, of which `found` says whether it can be mapped.
pub record Maps (b : Bus) (found : ℕ → Bool) : Type 0 where
  pub bar : (n : ℕ) → (b.map_device_memory (b.init_device_memory n)).memory.bar ≡ n
  pub enabled : (n : ℕ) → (b.map_device_memory (b.init_device_memory n)).memory.enabled ≡ found n
  pub acts :
      (n : ℕ)
      → (b.map_device_memory (b.init_device_memory n)).acts ≡ take_if (found n) (resource b.kind n)
  pub result : (n : ℕ) → is_zero (b.map_device_memory (b.init_device_memory n)).result ≡ found n

-- Which BARs can be mapped.
abbrev pub pci_found : Resources → ℕ → Bool
pci_found r n = if r.len n == 0 then false else not (r.iomap n == 0)

abbrev pub membus_found : (ℕ → ℕ) → ℕ → Bool
membus_found ioremap n =
    if ltb n 2 then not (ioremap (cs0_base_addr + n * 0x02000000) == 0) else false

pub pci_bus-Maps : (r : Resources) → Maps (pci_bus r) (pci_found r)
pci_bus-Maps r = record {
  bar = λ n. ground arith;
  enabled = λ n. ground arith;
  acts = λ n. ground arith;
  result = λ n. ground arith;
}

pub membus-Maps : (ioremap : ℕ → ℕ) → Maps (membus ioremap) (membus_found ioremap)
membus-Maps ioremap = record {
  bar = λ n. ground arith;
  enabled = λ n. ground arith;
  acts = λ n. ground arith;
  result = λ n. ground arith;
}

module _ (b : Bus) (found : ℕ → Bool) (maps : Maps b found) where
  pub setup_from-acts :
      (left n : ℕ) (regb : ℕ → Memory)
      → (setup_from b left n regb).acts ≡ take_each b.kind found left n
  unfolding setup_from
  setup_from-acts zero n regb = refl
  setup_from-acts (suc left) n regb =
      ap₂ ◌++◌ (maps.acts n) (setup_from-acts left (n + 1) (update regb n _))

  pub setup_from-nbars :
      (left n : ℕ) (regb : ℕ → Memory) → (setup_from b left n regb).nbars ≡ count found left n
  unfolding setup_from
  setup_from-nbars zero n regb = refl
  setup_from-nbars (suc left) n regb = rw (maps.result n) (
      ap (λ (k : ℕ). (if found n then 1 else 0) + k)
        (setup_from-nbars left (n + 1) (update regb n _)))

  setup_from-before :
      (left n i : ℕ) (regb : ℕ → Memory) → i < n → (setup_from b left n regb).regb i ≡ regb i
  unfolding setup_from
  setup_from-before zero n i regb lt = refl
  setup_from-before (suc left) n i regb lt = ground (
    arith,
    setup_from-before left (n + 1) i
        (update regb n (b.map_device_memory (b.init_device_memory n)).memory) (omega (arith, lt)),
  )

  pub setup_from-regb :
      (left n i : ℕ) (regb : ℕ → Memory)
      → n ≤ i
      → i < n + left
      → (setup_from b left n regb).regb i ≡ (b.map_device_memory (b.init_device_memory i)).memory
  unfolding setup_from
  setup_from-regb zero n i regb le lt = absurd (omega (arith, le, lt))
  setup_from-regb (suc left) n i regb le lt =
      let next : ℕ → Memory = update regb n (b.map_device_memory (b.init_device_memory n)).memory in
      elim (Bool-cases (n == i)) [
        | inl here ↦ ground (arith, here, setup_from-before left (n + 1) i next)
        | inr past ↦
            setup_from-regb left (n + 1) i next (ground (arith, past, le)) (omega (arith, lt))
      ]

-- A loop that unmaps memories that carry their BAR.
pub remove_from-acts :
    (b : Bus) (found : ℕ → Bool) (left n : ℕ) (regb : ℕ → Memory)
    → ((i : ℕ) → n ≤ i → i < n + left → (regb i).bar ≡ i)
    → ((i : ℕ) → n ≤ i → i < n + left → (regb i).enabled ≡ found i)
    → (remove_from b left n regb).acts ≡ give_each b.kind found left n
unfolding remove_from
remove_from-acts b found zero n regb bar on = refl
remove_from-acts b found (suc left) n regb bar on =
    ap₂ ◌++◌ (here (found n) (bar n (omega arith) (omega arith)) (on n (omega arith) (omega arith)))
      (remove_from-acts b found left (n + 1) (update regb n (record (regb n) { enabled = false }))
        (λ i le lt. ground (arith, bar i (omega (arith, le)) (omega (arith, lt)), le))
        (λ i le lt. ground (arith, on i (omega (arith, le)) (omega (arith, lt)), le)))
  where
    here :
        (f : Bool)
        → (regb n).bar ≡ n
        → (regb n).enabled ≡ f
        → (if (regb n).enabled then give (resource b.kind (regb n).bar) ∷ [] else [])
          ≡ give_if f (resource b.kind n)
    here true e o = rw (o) (rw (e) refl)
    here false e o = rw (o) refl

pub remove_from-enabled :
    (b : Bus) (left n i : ℕ) (regb : ℕ → Memory)
    → ((remove_from b left n regb).regb i).enabled
      ≡ (if leb n i && ltb i (n + left) then false else (regb i).enabled)
unfolding remove_from
remove_from-enabled b zero n i regb = ground arith
remove_from-enabled b (suc left) n i regb = ground (
  arith,
  remove_from-enabled b left (n + 1) i (update regb n (record (regb n) { enabled = false })),
)
