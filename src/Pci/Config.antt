-- ===== src/Pci/Config.antt =====
-- The device control register in the configuration space of a PCI Express device: pcie_set_mps and
-- pcie_set_ext_tag of bifrost/bifrost_pci.c.
pub mod Written
use bifrost_module.Base.{
  ℕ, ◌+◌, ◌-◌, ◌*◌, ◌%◌, ◌^◌, Bool, true, false, not, ◌||◌, ltb, ◌==◌, if◌then◌else◌, bit_and,
  bit_or, ffs, Result, ok, err, einval,
}
use bifrost_module.Startup.{is_zero}

-- The kernel's functions: where the PCI Express capability is (0 if there is none), and the reading of
-- a word and the writing of a double word at an offset. Each of the latter returns 0 or a code, which
-- can be positive; the word counts only with 0. A write gives the new state of the space.
pub record ConfigSpace (Dev : Type 0) : Type 0 where
  pub pci_pcie_cap : Dev → ℕ
  pub pci_read_config_word : Dev → ℕ → Result ℕ × ℕ
  pub pci_write_config_dword : Dev → ℕ → ℕ → Dev × Result ℕ
  pub is_power_of_2 : ℕ → Bool

abbrev pub pci_exp_devctl : ℕ
pci_exp_devctl = 8

abbrev pub pci_exp_devctl_payload : ℕ
pci_exp_devctl_payload = 0xE0

abbrev pub pci_exp_devctl_ext_tag : ℕ
pci_exp_devctl_ext_tag = 0x100

-- `(ffs(pl) - 8) << 5`, a `u16`, for a `pl` of at least 128.
abbrev pub payload_code : ℕ → ℕ
payload_code pl = (ffs pl - 8) * 2 ^ 5 % 2 ^ 16

-- The word with its payload field replaced.
unfoldable pub with_payload : (ctl v : ℕ) → ℕ
with_payload ctl v = bit_or (bit_and ctl (2 ^ 16 - 1 - pci_exp_devctl_payload)) v

module _ {Dev : Type 0} (space : ConfigSpace Dev) where
  open space use {pci_pcie_cap, pci_read_config_word, pci_write_config_dword, is_power_of_2}

  -- What both functions do when `ctl` has been read: `change` is the new word, if it is not right.
  unfoldable pub update_devctl : Dev → (right : ℕ → Bool) (change : ℕ → ℕ) → Dev × Result ℕ
  update_devctl dev right change =
      if pci_pcie_cap dev == 0
      then (dev, err einval)
      else (let (rc, ctl) = pci_read_config_word dev (pci_pcie_cap dev + pci_exp_devctl) in
          if not (is_zero rc)
          then (dev, rc)
          else (if right ctl
              then (dev, rc)
              else pci_write_config_dword dev (pci_pcie_cap dev + pci_exp_devctl) (change ctl)))

  unfoldable pub pcie_set_mps : Dev → (pl : ℕ) → Dev × Result ℕ
  unfolding update_devctl with_payload
  pcie_set_mps dev pl =
      if ltb pl 128 || ltb 4096 pl || not (is_power_of_2 pl)
      then (dev, err einval)
      else update_devctl dev (λ ctl. bit_and ctl pci_exp_devctl_payload == payload_code pl)
          (λ ctl. with_payload ctl (payload_code pl))

  unfoldable pub pcie_set_ext_tag : Dev → Dev × Result ℕ
  unfolding update_devctl
  pcie_set_ext_tag dev =
      update_devctl dev (λ ctl. not (bit_and ctl pci_exp_devctl_ext_tag == 0))
        (λ ctl. bit_or ctl pci_exp_devctl_ext_tag)
