-- ===== src/Regs/Tests.antt =====
-- Register access on a small device, and its theorems there.
use bifrost_module.Base.{
  List, length, get_elem?, none, ◌-◌, ◌*◌, ℕ, ◌+◌, ◌%◌, ◌^◌, ◌≤◌, ◌<◌, ◌≡◌, refl, ◌↔◌, ◌==◌,
  if◌then◌else◌, Bool, true, false, some, none, [], ◌∷◌, update, bit, bit_or, ok, arith,
}
use bifrost_module.Stats.{zeroed}
use bifrost_module.Device.{Io, Accessors, Memory, Device}
use bifrost_module.Regs.{
  rd_access, wr_access, check_bar_access, do_write_regb, do_modify_regb, access_table,
}
use bifrost_module.Regs.Access.{writes, check_bar_access_iff}
use bifrost_module.Regs.Modify.{do_modify_regb_lem}
use bifrost_module.Regs.Beyond.{membus_write_beyond}
use bifrost_module.Regs.Ioctl.{ioc_write_repeat, copied_word, copied_words}
use bifrost_module.Regs.Rounds.{written, ioc_write_repeat_lem}

-- Plain memory, without side effects of a read.
abbrev ram : Io (ℕ → ℕ)
ram = record {
  ioread16 = λ m a. (m a % 2 ^ 16, m);
  ioread32 = λ m a. (m a, m);
  iowrite16 = λ m a v. update m a (v % 2 ^ 16);
  iowrite32 = λ m a v. update m a v;
}

abbrev bar_memory : Accessors → ℕ → Memory
bar_memory kind n = record {
  bar = n;
  enabled = true;
  addr_bus = 0;
  size = 4096;
  flags = 0;
  addr = 0x10000;
  accessors = kind;
}

abbrev device : Bool → Accessors → Device
device bus kind = record {
  handles = [];
  stats = zeroed;
  cdev_initialized = true;
  regb = bar_memory kind;
  regb_dma = 0;
  dma_ctl = none;
  membus = bus;
}

abbrev counting : ℕ → ℕ
counting a = 0x0f

check_bar_access_iff_example :
    (check_bar_access false (device false Accessors.pci) 1 wr_access 8 ≡ ok 0)
    ↔ ((1 < 6) × (true ≡ true) × ((1 < 6) × (true ≡ true → ◌≡◌ {A = ℕ} 1 0 → ⊥)) × (8 < 4096))
check_bar_access_iff_example = check_bar_access_iff false (device false Accessors.pci) writes 1 8

write_passes : check_bar_access false (device false Accessors.pci) 1 wr_access 8 ≡ ok 0
unfolding check_bar_access access_table
write_passes = refl

modify_passes :
    check_bar_access false (device false Accessors.pci) 1 (bit_or rd_access wr_access) 8 ≡ ok 0
unfolding check_bar_access access_table
modify_passes = refl

-- Bits 0 and 4 set, bits 0 and 1 to clear.
do_modify_regb_lem_example :
    (w : ℕ) × (do_modify_regb ram false counting (device false Accessors.pci) 1 8 3 0x11
      ≡ (update counting 0x10008 w, ok w))
    × ((i : ℕ)
        → i < 32
        → bit w i ≡ (if bit 0x11 i == 1 then 1 else (if bit 3 i == 1 then 0 else bit 0x0f i)))
do_modify_regb_lem_example =
    do_modify_regb_lem ram false counting (device false Accessors.pci) 1 8 3 0x11 modify_passes refl
      (omega arith)

membus_write_beyond_example :
    (address : ℕ) × (do_write_regb ram false counting (device true Accessors.membus) 1 3000 5
      ≡ (update counting address (5 % 2 ^ 16 % 2 ^ 16), ok 0))
    × (0x10000 + 4096 ≤ address)
membus_write_beyond_example =
    membus_write_beyond ram counting (device true Accessors.membus) 1 3000 5 refl (omega arith) refl
      refl (omega arith) (omega arith) (omega arith)

-- Of the 8 bytes of user space the last 3 cannot be copied.
ioc_write_repeat_lem_example :
    let user : List ℕ = 0x11223344 ∷ 0x55667788 ∷ [] in
    (words : List ℕ) × (ioc_write_repeat ram false
        (device false Accessors.pci)
        (some (record { bar = 1; offset = 8; count = 2 }))
        true
        user
        3
        counting
      ≡ (written ram false (device false Accessors.pci) counting 1 8 words, ok 0))
    × (length words ≡ 2)
    × ((i : ℕ)
        → get_elem? words i
          ≡ elim (get_elem? user i) [ none ↦ none | some v ↦ some (copied_word (8 - 3 - 4 * i) v) ])
ioc_write_repeat_lem_example =
    ioc_write_repeat_lem ram false (device false Accessors.pci)
      (record { bar = 1; offset = 8; count = 2 }) (0x11223344 ∷ 0x55667788 ∷ []) 3 counting
      write_passes (omega arith)

cut_short : copied_words 5 (0x11223344 ∷ 0x55667788 ∷ []) ≡ 0x11223344 ∷ 0x88 ∷ []
cut_short = refl
