-- ===== src/Pci/Attach/Detached.antt =====
-- Detaching gives back the interrupts that attaching took: the MSI actions of bifrost/bifrost_pci.c.
use bifrost_module.Base.{
  ℕ, ◌+◌, ◌-◌, ◌≤◌, ◌<◌, ◌≡◌, refl, subst, ◌∙◌, Bool, false, ◌&&◌, none, some, List, [], ◌++◌, ltb,
  Result, arith, replay-append,
}
use bifrost_module.Startup.{Differs, Resource, resource, is_zero, left, ledger}
use bifrost_module.Startup.Each.{each, take_each, give_each, left-take_each, left-give_each}
use bifrost_module.Pci.Attach.{
  Msi, msi, attach_from, copied, bifrost_attach_msis_to_irq, detach_from, bifrost_detach_msis,
}
use bifrost_module.Pci.Attach.Loops.{
  has, irq_if, from_irq, attach_from-acts, detach_from-acts, give_each-cut, copied-fresh,
  none_below, all_rounds,
}

-- The interrupts that the loop is granted, the last one first.
abbrev pub granted : (answers : ℕ → Result ℕ) (hw_irq m : ℕ) → (ℕ → Msi) → List Resource
granted answers hw_irq m t =
    each 20 (from_irq (λ j. has (t j).handler && is_zero (answers j)) hw_irq) m (hw_irq + 0)

attached :
    (answers : ℕ → Result ℕ) (hw_irq m : ℕ) (t : ℕ → Msi)
    → ((j : ℕ) → (t j).irq ≡ none)
    → ((attach_from answers hw_irq m 0 t).1
        ≡ take_each 20
            (from_irq (λ j. has (t j).handler && is_zero (answers j)) hw_irq)
            m
            (hw_irq + 0))
      × ((j : ℕ)
          → ((attach_from answers hw_irq m 0 t).0 j).irq
            ≡ irq_if (ltb j (0 + m) && (has (t j).handler && is_zero (answers j))) (hw_irq + j))
attached answers hw_irq m t fresh =
    attach_from-acts answers (λ j. has (t j).handler && is_zero (answers j)) hw_irq m 0 t
      (λ j. fresh j ∙ none_below hw_irq j (has (t j).handler && is_zero (answers j))) (λ j le. refl)

detach_from-attach_from :
    (answers : ℕ → Result ℕ) (hw_irq m r : ℕ) (t : ℕ → Msi) (front held : List Resource)
    → ((j : ℕ) → (t j).irq ≡ none)
    → ((j : ℕ) → Differs (resource 20 j) front)
    → left
        (front ++ (granted answers hw_irq m t ++ held))
        (detach_from (m + r) 0 (attach_from answers hw_irq m 0 t).0).1
      ≡ some (front ++ held)
detach_from-attach_from answers hw_irq m r t front held fresh differ =
    let f : (ℕ → Bool) = λ j. has (t j).handler && is_zero (answers j) in
    let g : (ℕ → Bool) = λ j. ltb j (0 + m) && f j in
    let back : (detach_from (m + r) 0 (attach_from answers hw_irq m 0 t).0).1
        ≡ give_each 20 (from_irq f hw_irq) m (hw_irq + 0) =
      detach_from-acts g hw_irq (m + r) 0 (attach_from answers hw_irq m 0 t).0
        (λ j le. (attached answers hw_irq m t fresh).1 j)
      ∙ give_each-cut 20 (from_irq f hw_irq) (from_irq g hw_irq) m r (hw_irq + 0)
          (λ q le lt. within (f (q - hw_irq)) (q - hw_irq) (omega (arith, le, lt)))
          (λ q le. outside (f (q - hw_irq)) (q - hw_irq) (omega (arith, le))) in
    rw (back) (left-give_each 20 (from_irq f hw_irq) m (hw_irq + 0) front held differ)
  where
    within : (b : Bool) (j : ℕ) → j < m → (ltb j (0 + m) && b) ≡ b
    within b j lt = ground (arith, lt)

    outside : (b : Bool) (j : ℕ) → m ≤ j → (ltb j (0 + m) && b) ≡ false
    outside b j le = ground (arith, le)

-- What attaching leaves held, from a table without interrupts.
pub left-attach_msis :
    (fvd : Bool) (m : ℕ) (answers : ℕ → Result ℕ) (hw_irq : ℕ) (table : ℕ → Msi)
    (held : List Resource)
    → ((j : ℕ) → (table j).irq ≡ none)
    → left held (bifrost_attach_msis_to_irq fvd m answers hw_irq table).1
      ≡ some (granted answers hw_irq m (copied fvd m table) ++ held)
unfolding bifrost_attach_msis_to_irq
left-attach_msis fvd m answers hw_irq table held fresh =
    let t : (ℕ → Msi) = copied fvd m table in
    rw ((attached answers hw_irq m t (copied-fresh fvd m table fresh)).0) (
      left-take_each 20 (from_irq (λ j. has (t j).handler && is_zero (answers j)) hw_irq) m
        (hw_irq + 0) held)

-- What detaching gives back, behind what was taken since.
pub left-detach_msis :
    (fvd : Bool) (m : ℕ) (answers : ℕ → Result ℕ) (hw_irq : ℕ) (table : ℕ → Msi)
    (front held : List Resource)
    → m ≤ 32
    → ((j : ℕ) → (table j).irq ≡ none)
    → ((j : ℕ) → Differs (resource 20 j) front)
    → left
        (front ++ (granted answers hw_irq m (copied fvd m table) ++ held))
        (bifrost_detach_msis (bifrost_attach_msis_to_irq fvd m answers hw_irq table).0).1
      ≡ some (front ++ held)
unfolding bifrost_attach_msis_to_irq bifrost_detach_msis
left-detach_msis fvd m answers hw_irq table front held few fresh differ =
    subst
      (λ n.
        left (front ++ (granted answers hw_irq m (copied fvd m table) ++ held))
          (detach_from n 0 (attach_from answers hw_irq m 0 (copied fvd m table)).0).1
        ≡ some (front ++ held))
      (all_rounds m few)
      (detach_from-attach_from answers hw_irq m (32 - m) (copied fvd m table) front held
        (copied-fresh fvd m table fresh) differ)

-- From a table without interrupts, on any board: attaching up to 32 actions and then detaching gives
-- back each interrupt that the kernel granted, once and with its own number, and nothing else.
pub bifrost_detach_msis-attach :
    (fvd : Bool) (m : ℕ) (answers : ℕ → Result ℕ) (hw_irq : ℕ) (table : ℕ → Msi)
    (held : List Resource)
    → m ≤ 32
    → ((j : ℕ) → (table j).irq ≡ none)
    → left held (
        (bifrost_attach_msis_to_irq fvd m answers hw_irq table).1
        ++ (bifrost_detach_msis (bifrost_attach_msis_to_irq fvd m answers hw_irq table).0).1)
      ≡ some held
bifrost_detach_msis-attach fvd m answers hw_irq table held few fresh =
    replay-append ledger (some held) (bifrost_attach_msis_to_irq fvd m answers hw_irq table).1 _
    ∙ rw (left-attach_msis fvd m answers hw_irq table held fresh)
        (left-detach_msis fvd m answers hw_irq table [] held few fresh (λ j. tt))

pub msi-fresh : (j : ℕ) → (msi j).irq ≡ none
unfolding msi
msi-fresh j = ground arith
