-- ===== src/Pci/Setup.antt =====
-- What bifrost_dma_init of bifrost/bifrost_pci.c makes of the registers of the DMA engine.
use bifrost_module.Base.{
  ℕ, zero, suc, ◌+◌, ◌-◌, ◌%◌, ◌^◌, ◌≤◌, ◌<◌, ◌≡◌, ◌↔◌, refl, sym, ◌∙◌, true, none, some, [],
  bit_and, min, bit, bit-mask, bit-bit_and, bit-complement, bit_and-lt, bit-le, bit_and_mask, ok,
  arith,
}
use bifrost_module.Dma.{Ctl, alloc_dma_ctl, enable_dma_ch, max_dma_channels}
use bifrost_module.Dma.Invariant.{IsValid, alloc_dma_ctl-IsValid}
use bifrost_module.Device.{Io, Device}
use bifrost_module.Regs.{rd}
use bifrost_module.Pci.{
  Platform, dma_bar, enable_from, enable_all, idle_map, bifrost_dma_init, dma_capability,
  dma_status,
}

-- The controller is as it was but for the interrupts of the channels from `n` on.
record IsEnabled (old new : Ctl) (irq left n : ℕ) : Type 0 where
  list : new.list ≡ old.list
  num_ch : new.num_ch ≡ old.num_ch
  idle_bitmap : new.idle_bitmap ≡ old.idle_bitmap
  in_progress : (i : ℕ) → (new.ch i).in_progress ≡ (old.ch i).in_progress
  set : (i : ℕ) → n ≤ i → i < n + left → (new.ch i).irq ≡ irq + i
  kept : (i : ℕ) → i < n → (new.ch i).irq ≡ (old.ch i).irq

enable_from-Enabled :
    (ctl : Ctl) (irq left n : ℕ) → IsEnabled ctl (enable_from ctl irq left n) irq left n
unfolding enable_from enable_dma_ch
enable_from-Enabled ctl irq zero n = record {
  list = refl;
  num_ch = refl;
  idle_bitmap = refl;
  in_progress = λ i. refl;
  set = λ i le lt. absurd (omega (arith, le, lt));
  kept = λ i lt. refl;
}
enable_from-Enabled ctl irq (suc left) n =
    let rest : IsEnabled (enable_dma_ch ctl n (irq + n))
        (enable_from (enable_dma_ch ctl n (irq + n)) irq left (n + 1)) irq left (n + 1) =
      enable_from-Enabled (enable_dma_ch ctl n (irq + n)) irq left (n + 1) in
    record {
      list = rest.list;
      num_ch = rest.num_ch;
      idle_bitmap = rest.idle_bitmap;
      in_progress = λ i. rest.in_progress i ∙ ground arith;
      set = λ i le lt. ground (arith, le, lt, rest.set i, rest.kept i);
      kept = λ i lt. rest.kept i (omega (arith, lt)) ∙ ground (arith, lt);
    }

IsEnabled-IsValid :
    (old new : Ctl) (irq left n : ℕ) → IsEnabled old new irq left n → IsValid old → IsValid new
IsEnabled-IsValid old new irq left n e v = record {
  few = rw (e.num_ch) v.few;
  fits = rw (e.idle_bitmap) v.fits;
  within = λ i lt set. rw (e.num_ch) (v.within i lt (rw (sym e.idle_bitmap) set));
  free = λ i lt set. e.in_progress i ∙ v.free i lt (rw (sym e.idle_bitmap) set);
  served = λ i lt set. e.list ∙ v.served i lt (rw (sym e.idle_bitmap) set);
}

bit-idle_map :
    (status num_ch i : ℕ)
    → status < 2 ^ 32
    → i < 32
    → (bit (idle_map status num_ch) i ≡ 1) ↔ ((i < num_ch) × (bit status i ≡ 0))
unfolding idle_map
bit-idle_map status num_ch i fits lt =
    let both : bit (bit_and (2 ^ 32 - 1 - status) (2 ^ num_ch - 1)) i
        ≡ min (bit (2 ^ 32 - 1 - status) i) (bit (2 ^ num_ch - 1) i) =
      bit-bit_and (2 ^ 32 - 1 - status) (2 ^ num_ch - 1) i in
    rw (both, bit-mask num_ch i)
      (ground (arith, bit-complement 32 status i fits lt, bit-le status i))

idle_map-lt : (status num_ch : ℕ) → idle_map status num_ch < 2 ^ 32
unfolding idle_map
idle_map-lt status num_ch = bit_and-lt 32 (2 ^ 32 - 1 - status) (2 ^ num_ch - 1) (omega arith)

-- The channels of a number: at most 15, each with its own interrupt, and idle if the status says so.
pub record IsSetUp (ctl : Ctl) (capability status irq : ℕ) : Type 0 where
  pub valid : IsValid ctl
  pub num_ch : ctl.num_ch ≡ capability % 2 ^ 4
  pub irq_of : (i : ℕ) → i < ctl.num_ch → (ctl.ch i).irq ≡ irq + i
  pub idle : (i : ℕ) → i < ctl.num_ch → (bit ctl.idle_bitmap i ≡ 1) ↔ (bit status i ≡ 0)
  pub nothing : (i : ℕ) → (ctl.ch i).in_progress ≡ none
  pub nobody : ctl.list ≡ []

-- What alloc_dma_ctl gives.
abbrev allocated : (status num_ch : ℕ) → Ctl
allocated status num_ch = record {
  list = [];
  num_ch = min num_ch max_dma_channels;
  idle_bitmap = idle_map status num_ch;
  ch = λ _. record { irq = 0; in_progress = none };
}

allocated-IsValid : (status n : ℕ) → status < 2 ^ 32 → n < 16 → IsValid (allocated status n)
unfolding alloc_dma_ctl
allocated-IsValid status n fits few =
    alloc_dma_ctl-IsValid n (idle_map status n) (idle_map-lt status n) (omega (arith, few))
      (λ i lt set. ((bit-idle_map status n i fits lt).0 set).0) refl

enabled-SetUp :
    (status irq capability n : ℕ)
    → status < 2 ^ 32
    → n ≡ capability % 2 ^ 4
    → IsSetUp (enable_from (allocated status n) irq n 0) capability status irq
enabled-SetUp status irq capability n fits e =
    let more : IsEnabled (allocated status n) (enable_from (allocated status n) irq n 0) irq n 0 =
      enable_from-Enabled (allocated status n) irq n 0 in
    let few : n < 16 = omega (arith, e) in
    let same : (enable_from (allocated status n) irq n 0).num_ch ≡ n =
      more.num_ch ∙ omega (arith, few) in
    record {
      valid = IsEnabled-IsValid _ _ irq n 0 more (allocated-IsValid status n fits few);
      num_ch = same ∙ e;
      irq_of = λ i lt. more.set i (omega arith) (omega (arith, lt, same));
      idle = λ i lt. rw (more.idle_bitmap) (idle_below i (omega (arith, lt, same)));
      nothing = more.in_progress;
      nobody = more.list;
    }
  where
    idle_below : (i : ℕ) → i < n → (bit (idle_map status n) i ≡ 1) ↔ (bit status i ≡ 0)
    idle_below i lt =
        let (to, from) = bit-idle_map status n i fits (omega (arith, lt, e)) in
        (λ set. (to set).1, λ clear. from (lt, clear))

-- Whatever the board, with memory for the controller and a status register of 32 bits: the engine is
-- set up, and returns 0, with a valid controller of as many channels as the low four bits of the
-- capability register say; each has its own interrupt, `irq` and the following, and is idle just if
-- its bit in the status register is 0. It holds no request.
pub bifrost_dma_init-SetUp :
    {Hw : Type 0} (io : Io Hw) (platform : Platform) (irq : ℕ) (d : Device) (hw : Hw)
    (capability status : ℕ) (hw' hw'' : Hw)
    → rd io hw (d.regb (dma_bar platform)) dma_capability ≡ (capability, hw')
    → rd io hw' (d.regb (dma_bar platform)) dma_status ≡ (status, hw'')
    → status < 2 ^ 32
    → ((bifrost_dma_init io platform true irq d hw).2 ≡ ok 0)
      × ((ctl : Ctl) × ((bifrost_dma_init io platform true irq d hw).0.dma_ctl ≡ some ctl)
          × IsSetUp ctl capability status irq)
unfolding bifrost_dma_init enable_all alloc_dma_ctl
bifrost_dma_init-SetUp io platform irq d hw capability status hw' hw'' first second fits =
    let n : ℕ = bit_and capability 0xf in
    (
      refl,
      (
        enable_from (allocated status n) irq n 0,
        rw (first, second) refl,
        enabled-SetUp status irq capability n fits (bit_and_mask 4 capability),
      ),
    )
