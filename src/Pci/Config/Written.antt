-- ===== src/Pci/Config/Written.antt =====
-- What the device control register holds after pcie_set_mps and pcie_set_ext_tag.
use bifrost_module.Base.{
  ℕ, zero, suc, ◌+◌, ◌-◌, ◌*◌, ◌^◌, ◌<◌, ◌≡◌, ◌≢◌, refl, ◌∙◌, ap, ◌/◌, Bool, true, false, not, ◌&&◌,
  ltb, leb, ◌==◌, if◌then◌else◌, bit_and, bit_or, bit-bit_and, bit-bit_or, bit-complement, bit-le,
  bit-high, bit-pow, bit-zero, bit_or-lt, bit_and-lt, eq_of_bits, ok, arith, Bool-cases, inl, inr,
}
use native.Mathlib.Nat.{pow-suc}
use bifrost_module.Base.Bits.{bit}
use bifrost_module.Base.Words.{ffs}
use bifrost_module.Pci.Config.{
  ConfigSpace, pci_exp_devctl, payload_code, with_payload, update_devctl, pcie_set_mps,
  pcie_set_ext_tag,
}

-- The bits 5 to 7, those of the payload size.
abbrev pub in_payload : ℕ → Bool
in_payload i = leb 5 i && ltb i 8

bit-payload : (i : ℕ) → bit 0xE0 i ≡ (if in_payload i then 1 else 0)
unfolding bit
bit-payload zero = refl
bit-payload (suc zero) = refl
bit-payload (suc (suc zero)) = refl
bit-payload (suc (suc (suc zero))) = refl
bit-payload (suc (suc (suc (suc zero)))) = refl
bit-payload (suc (suc (suc (suc (suc zero))))) = refl
bit-payload (suc (suc (suc (suc (suc (suc zero)))))) = refl
bit-payload (suc (suc (suc (suc (suc (suc (suc zero))))))) = refl
bit-payload (suc (suc (suc (suc (suc (suc (suc (suc i)))))))) = ground (arith, bit-zero i)

bit-with_payload :
    (ctl v i : ℕ)
    → i < 16
    → (in_payload i ≡ false → bit v i ≡ 0)
    → bit (with_payload ctl v) i ≡ (if in_payload i then bit v i else bit ctl i)
unfolding with_payload
bit-with_payload ctl v i lt outside = ground (
  arith,
  bit-bit_or (bit_and ctl (2 ^ 16 - 1 - 0xE0)) v i,
  bit-bit_and ctl (2 ^ 16 - 1 - 0xE0) i,
  bit-complement 16 0xE0 i (omega arith) lt,
  bit-payload i,
  bit-le v i,
  bit-le ctl i,
  outside,
)

double : (x k : ℕ) → x * 2 ^ suc k ≡ x * 2 ^ k * 2
double x k = grind (arith, pow-suc 2 k)

bit-shift : (x k i : ℕ) → bit (x * 2 ^ k) (i + k) ≡ bit x i
unfolding bit
bit-shift x zero i =
    let whole : x * 2 ^ 0 ≡ x = omega arith in
    let place : i + 0 ≡ i = omega arith in rw (whole, place) refl
bit-shift x (suc k) i =
    let half : x * 2 ^ suc k / 2 ≡ x * 2 ^ k = omega (arith, double x k) in
    let place : i + suc k ≡ suc (i + k) = omega arith in
    rw (place) (ap (λ (t : ℕ). bit t (i + k)) half ∙ bit-shift x k i)

bit-shift_below : (x k i : ℕ) → i < k → bit (x * 2 ^ k) i ≡ 0
unfolding bit
bit-shift_below x zero i lt = absurd (omega (arith, lt))
bit-shift_below x (suc k) zero lt = omega (arith, double x k)
bit-shift_below x (suc k) (suc i) lt =
    let half : x * 2 ^ suc k / 2 ≡ x * 2 ^ k = omega (arith, double x k) in
    ap (λ (t : ℕ). bit t i) half ∙ bit-shift_below x k i (omega (arith, lt))

-- The payload code has no bit outside the field.
outside_payload : (c i : ℕ) → c < 8 → in_payload i ≡ false → bit (c * 2 ^ 5) i ≡ 0
outside_payload c i few out = elim (Bool-cases (ltb i 5)) [
  | inl low ↦ bit-shift_below c 5 i (ground (arith, low))
  | inr high ↦ bit-high 8 (c * 2 ^ 5) i (omega (arith, few)) (ground (arith, high, out))
]

payload_code-pow : (c : ℕ) → c < 6 → payload_code (2 ^ (7 + c)) ≡ c * 2 ^ 5
unfolding ffs
payload_code-pow zero lt = refl
payload_code-pow (suc zero) lt = refl
payload_code-pow (suc (suc zero)) lt = refl
payload_code-pow (suc (suc (suc zero))) lt = refl
payload_code-pow (suc (suc (suc (suc zero)))) lt = refl
payload_code-pow (suc (suc (suc (suc (suc zero))))) lt = refl
payload_code-pow (suc (suc (suc (suc (suc (suc c)))))) lt = absurd (omega (arith, lt))

with_payload-lt : (ctl v : ℕ) → ctl < 2 ^ 16 → v < 2 ^ 16 → with_payload ctl v < 2 ^ 16
unfolding with_payload
with_payload-lt ctl v hc hv =
    bit_or-lt 16 (bit_and ctl (2 ^ 16 - 1 - 0xE0)) v (bit_and-lt 16 ctl (2 ^ 16 - 1 - 0xE0) hc) hv

bit_above : (x : ℕ) → x < 2 ^ 16 → bit_and x 0x100 ≢ 0 → bit x 8 ≡ 1
bit_above x fits h = elim (Bool-cases (bit x 8 == 1)) [
  | inl e ↦ ground (arith, e)
  | inr e ↦ absurd (
      h (
        eq_of_bits 16 (bit_and x 0x100) 0 (bit_and-lt 16 x 0x100 fits) (omega arith)
          (λ i lt. ground (arith, bit-bit_and x 0x100 i, bit-pow 8 i, bit-le x i, bit-zero i, e))))
]

set_already :
    (ctl i : ℕ)
    → ctl < 2 ^ 16
    → (bit_and ctl 0x100 == 0) ≡ false
    → bit ctl i ≡ (if i == 8 then 1 else bit ctl i)
set_already ctl i fits set =
    ground (arith, bit_above ctl fits (λ e. absurd (ground (arith, e, set))))

-- What the device control register holds.
abbrev pub devctl : {Dev : Type 0} → ConfigSpace Dev → Dev → ℕ
devctl space dev = (space.pci_read_config_word dev (space.pci_pcie_cap dev + pci_exp_devctl)).1

-- What a PCI Express device does: the capability is there and stays where it is, its device control
-- register can be read and written, and holds what was written.
pub record IsExpress {Dev : Type 0} (space : ConfigSpace Dev) : Type 0 where
  pub there : (dev : Dev) → (space.pci_pcie_cap dev == 0) ≡ false
  pub reads :
      (dev : Dev)
      → (space.pci_read_config_word dev (space.pci_pcie_cap dev + pci_exp_devctl)).0 ≡ ok 0
  pub is_word : (dev : Dev) → devctl space dev < 2 ^ 16
  pub writes :
      (dev : Dev) (v : ℕ)
      → (space.pci_write_config_dword dev (space.pci_pcie_cap dev + pci_exp_devctl) v).1 ≡ ok 0
  pub holds :
      (dev : Dev) (v : ℕ)
      → v < 2 ^ 16
      → devctl space
          (space.pci_write_config_dword dev (space.pci_pcie_cap dev + pci_exp_devctl) v).0
        ≡ v
  pub powers : (k : ℕ) → space.is_power_of_2 (2 ^ k) ≡ true

power_range : (c : ℕ) → c < 6 → (ltb (2 ^ (7 + c)) 128 ≡ false) × (ltb 4096 (2 ^ (7 + c)) ≡ false)
power_range zero lt = (refl, refl)
power_range (suc zero) lt = (refl, refl)
power_range (suc (suc zero)) lt = (refl, refl)
power_range (suc (suc (suc zero))) lt = (refl, refl)
power_range (suc (suc (suc (suc zero)))) lt = (refl, refl)
power_range (suc (suc (suc (suc (suc zero))))) lt = (refl, refl)
power_range (suc (suc (suc (suc (suc (suc c)))))) lt = absurd (omega (arith, lt))

-- A field that is right already.
right_payload :
    (ctl v i : ℕ)
    → (bit_and ctl 0xE0 == v) ≡ true
    → bit ctl i ≡ (if in_payload i then bit v i else bit ctl i)
right_payload ctl v i e =
    let same : bit_and ctl 0xE0 ≡ v = ground (arith, e) in
    ground
      (arith, ap (λ (t : ℕ). bit t i) same, bit-bit_and ctl 0xE0 i, bit-payload i, bit-le ctl i)

module _ {Dev : Type 0} (space : ConfigSpace Dev) (express : IsExpress space) where
  update_devctl_lem :
      (dev : Dev) (right : ℕ → Bool) (change : ℕ → ℕ)
      → change (devctl space dev) < 2 ^ 16
      → let r = update_devctl space dev right change in
        (r.1 ≡ ok 0)
        × (devctl space r.0
            ≡ (if right (devctl space dev) then devctl space dev else change (devctl space dev)))
  unfolding update_devctl
  update_devctl_lem dev right change fits = elim (Bool-cases (right (devctl space dev))) [
    | inl e ↦ rw (express.there dev, express.reads dev, e) (refl, refl)
    | inr e ↦
        rw (express.there dev, express.reads dev, e)
          (
            express.writes dev (change (devctl space dev)),
            express.holds dev (change (devctl space dev)) fits,
          )
  ]

  -- The payload field is that of `v`, and the other bits are as they were.
  set_mps-bits :
      (dev : Dev) (c i : ℕ)
      → c < 6
      → i < 16
      → let r = pcie_set_mps space dev (2 ^ (7 + c)) in
        (r.1 ≡ ok 0)
        × (bit (devctl space r.0) i
            ≡ (if in_payload i then bit (c * 2 ^ 5) i else bit (devctl space dev) i))
  unfolding pcie_set_mps
  set_mps-bits dev c i few lt =
      let v : ℕ = c * 2 ^ 5 in
      let ctl : ℕ = devctl space dev in
      let (high, low) = power_range c few in
      let fits : with_payload ctl v < 2 ^ 16 =
        with_payload-lt ctl v (express.is_word dev) (omega (arith, few)) in
      let (rc, word) =
        update_devctl_lem dev (λ ctl. bit_and ctl 0xE0 == v) (λ ctl. with_payload ctl v) fits in
      rw (high, low, express.powers (7 + c), payload_code-pow c few)
        (
          rc,
          ap (λ (t : ℕ). bit t i) word ∙ (elim (Bool-cases (bit_and ctl 0xE0 == v)) [
            | inl e ↦ rw (e) (right_payload ctl v i e)
            | inr e ↦
                rw (e) (bit-with_payload ctl v i lt (outside_payload c i (omega (arith, few))))
          ]),
        )

  -- The bit of the extended tags is set, and the other bits are as they were.
  set_ext_tag-bits :
      (dev : Dev) (i : ℕ)
      → let r = pcie_set_ext_tag space dev in
        (r.1 ≡ ok 0) × (bit (devctl space r.0) i ≡ (if i == 8 then 1 else bit (devctl space dev) i))
  unfolding pcie_set_ext_tag
  set_ext_tag-bits dev i =
      let ctl : ℕ = devctl space dev in
      let fits : bit_or ctl 0x100 < 2 ^ 16 =
        bit_or-lt 16 ctl 0x100 (express.is_word dev) (omega arith) in
      let (rc, word) =
        update_devctl_lem dev (λ ctl. not (bit_and ctl 0x100 == 0)) (λ ctl. bit_or ctl 0x100)
          fits in
      (
        rc,
        ap (λ (t : ℕ). bit t i) word ∙ (elim (Bool-cases (bit_and ctl 0x100 == 0)) [
          | inl clear ↦
              rw (clear) (ground (arith, bit-bit_or ctl 0x100 i, bit-pow 8 i, bit-le ctl i))
          | inr set ↦ rw (set) (set_already ctl i (express.is_word dev) set)
        ]),
      )

-- On a device with a PCI Express capability whose device control register can be read and written
-- and holds what is written: pcie_set_mps with a payload of 2 ^ (7 + c) bytes, for c below 6, and then
-- pcie_set_ext_tag both return 0, and of the 16 bits of the register the three of the payload size
-- are then those of c, the bit of the extended tags is 1, and all others are as they were.
pub configured :
    {Dev : Type 0} (space : ConfigSpace Dev) (dev : Dev) (c : ℕ)
    → IsExpress space
    → c < 6
    → let (dev', rc) = pcie_set_mps space dev (2 ^ (7 + c)) in
      let (dev'', rc') = pcie_set_ext_tag space dev' in
      (rc ≡ ok 0)
      × (rc' ≡ ok 0)
      × ((i : ℕ) → i < 3 → bit (devctl space dev'') (i + 5) ≡ bit c i)
      × (bit (devctl space dev'') 8 ≡ 1)
      × ((i : ℕ)
          → i < 16
          → in_payload i ≡ false
          → i ≢ 8
          → bit (devctl space dev'') i ≡ bit (devctl space dev) i)
configured space dev c express few =
    let dev' = (pcie_set_mps space dev (2 ^ (7 + c))).0 in
    (
      (set_mps-bits space express dev c 0 few (omega arith)).0,
      (set_ext_tag-bits space express dev' 0).0,
      λ i lt. ground (
        arith,
        (set_ext_tag-bits space express dev' (i + 5)).1,
        (set_mps-bits space express dev c (i + 5) few (omega (arith, lt))).1,
        bit-shift c 5 i,
      ),
      ground (arith, (set_ext_tag-bits space express dev' 8).1),
      λ i lt out other. ground (
        arith,
        (set_ext_tag-bits space express dev' i).1,
        (set_mps-bits space express dev c i few lt).1,
        out,
      ),
    )
