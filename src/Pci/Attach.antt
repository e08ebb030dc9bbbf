-- ===== src/Pci/Attach.antt =====
-- The table of MSI actions of bifrost/bifrost_pci.c: attaching to the interrupts and detaching.
pub mod Loops
pub mod Detached
use bifrost_module.Base.{
  ℕ, zero, suc, ◌+◌, ◌-◌, ◌≤◌, ◌<◌, ◌≡◌, refl, sym, ap, ap₂, ◌∙◌, Bool, true, false, Option, none,
  some, List, [], ◌∷◌, ◌++◌, ltb, ◌==◌, if◌then◌else◌, update, Result, ok, err, arith, Bool-cases,
  inl, inr,
}
use bifrost_module.Startup.{Resource, resource, Act, take, give, is_zero, left}
use bifrost_module.Startup.Each.{take_each, give_each, each, left-take_each, left-give_each}

pub data Handler : Type 0 where
  handle_dma handle_default handle_fvd : Handler

-- `struct msi_action`; `irq` is `none` for NO_IRQ.
pub record Msi : Type 0 where
  pub irq : Option ℕ
  pub msi_vec : ℕ
  pub handler : Option Handler

abbrev pub msi_enable : Handler → Msi
msi_enable h = record { irq = none; msi_vec = 0; handler = some h }

abbrev pub msi_disabled : Msi
msi_disabled = record { irq = none; msi_vec = 0; handler = none }

-- The two tables, of 32 entries each.
unfoldable pub msi : ℕ → Msi
msi n =
    if ltb n 8
    then msi_enable handle_dma
    else if n == 9
    then msi_disabled
    else if ltb n 18
    then msi_enable handle_default
    else msi_disabled

unfoldable pub msi_fvd : ℕ → Msi
msi_fvd n =
    if n == 0 then msi_enable handle_dma else if n == 8 then msi_enable handle_fvd else msi_disabled

-- The kernel's answers to `request_irq`, by vector. The resource of kind 20 is an interrupt.
unfoldable pub request_msi : (Result ℕ) → Msi → (hw_irq vec : ℕ) → Msi × List Act
request_msi rc m hw_irq vec =
    if is_zero rc
    then (
      record m { irq = some (hw_irq + vec); msi_vec = vec },
      take (resource 20 (hw_irq + vec)) ∷ [],
    )
    else (record m { irq = none; msi_vec = vec }, [])

-- One round of the loop.
unfoldable pub attach_one : (Result ℕ) → Msi → (hw_irq vec : ℕ) → Msi × List Act
unfolding request_msi
attach_one rc m hw_irq vec = elim m.handler [
  | none ↦ (m, [])
  | some h ↦ elim m.irq [ some q ↦ (m, []) | none ↦ request_msi rc m hw_irq vec ]
]

-- The loop, with `rounds` to go.
unfoldable pub attach_from :
    (answers : ℕ → Result ℕ) (hw_irq rounds n : ℕ) → (ℕ → Msi) → (ℕ → Msi) × List Act
unfolding attach_one
attach_from answers hw_irq zero n table = (table, [])
attach_from answers hw_irq (suc rounds) n table =
    let (m, acts) = attach_one (answers n) (table n) hw_irq n in
    let (table', more) = attach_from answers hw_irq rounds (n + 1) (update table n m) in
    (table', acts ++ more)

-- `memcpy` of the first entries.
unfoldable pub copied : (fvd : Bool) (msi_interrupts : ℕ) → (ℕ → Msi) → ℕ → Msi
unfolding msi_fvd
copied false msi_interrupts table n = table n
copied true msi_interrupts table n = if ltb n msi_interrupts then msi_fvd n else table n

unfoldable pub bifrost_attach_msis_to_irq :
    (fvd : Bool) (msi_interrupts : ℕ)
    → (answers : ℕ → Result ℕ) (hw_irq : ℕ) → (ℕ → Msi)
    → (ℕ → Msi) × List Act
unfolding attach_from copied
bifrost_attach_msis_to_irq fvd msi_interrupts answers hw_irq table =
    attach_from answers hw_irq msi_interrupts 0 (copied fvd msi_interrupts table)

unfoldable pub detach_one : Msi → Msi × List Act
detach_one m = elim m.irq [
  | none ↦ (m, [])
  | some q ↦ (record m { irq = none }, give (resource 20 q) ∷ [])
]

unfoldable pub detach_from : (rounds n : ℕ) → (ℕ → Msi) → (ℕ → Msi) × List Act
unfolding detach_one
detach_from zero n table = (table, [])
detach_from (suc rounds) n table =
    let (m, acts) = detach_one (table n) in
    let (table', more) = detach_from rounds (n + 1) (update table n m) in (table', acts ++ more)

unfoldable pub bifrost_detach_msis : (ℕ → Msi) → (ℕ → Msi) × List Act
unfolding detach_from
bifrost_detach_msis table = detach_from 32 0 table
