-- ===== src/UserDma/Tests.antt =====
-- Transfers of user-space buffers at concrete inputs.
use bifrost_module.Base.{
  ℕ, zero, suc, ◌/◌, ◌^◌, ◌<◌, List, ok, bit-zero, ◌≡◌, refl, true, false, some, none, [], ◌∷◌,
  arith, err, etimedout,
}
use bifrost_module.Base.Bits.{bit}
use bifrost_module.Stats.{Arch, zeroed}
use bifrost_module.Dma.Invariant.{IsValid}
use bifrost_module.Dma.Ready.{IsReady}
use bifrost_module.Dma.Conserved
use bifrost_module.Dma.History.{run, starts}
use bifrost_module.Dma.{Req, Ctl, Xfer, Done, dma_done, start_dma_xfer, alloc_dma_req, get_ticket}
use bifrost_module.UserDma.{
  Transfer, Direction, Saved, Answers, Call, dma_free_coherent, pci_map_single,
}
use bifrost_module.UserDma.Begin.{do_dma_start_xfer}
use bifrost_module.UserDma.Buffer.{do_dma_start_xfer-replay, replay, held}
use bifrost_module.UserDma.Round.{user_req, Serves, do_dma_start_xfer-completes}
use bifrost_module.UserDma.Late.{do_dma_start_xfer-freed_in_use}

abbrev arch : Arch
arch = record { ulong = 2 ^ 32; do_div = λ a b. a / b }

abbrev late : Answers
late = record {
  memory = true;
  coherent = some (0x7000, 0x8000);
  copied_in = true;
  bus = 0x9000;
  completed = false;
  copied_out = true;
}

abbrev kept : Saved
kept = record { size = 64; phy = 0x5000; virt = some 0x4000 }

abbrev large : Transfer
large = record { system = 0x100; device = 0x200; size = 128 }

abbrev small : Transfer
small = record { system = 0x100; device = 0x200; size = 32 }

abbrev ctl : Ctl
ctl = record {
  list = [];
  num_ch = 1;
  idle_bitmap = 1;
  ch = λ _. record { irq = 40; in_progress = none };
}

do_dma_start_xfer-replay_example :
    let r = do_dma_start_xfer late true 0xf00 0 9 7 ctl kept large Direction.down_stream in
    replay r.calls (held kept) ≡ some (held r.saved)
do_dma_start_xfer-replay_example =
    do_dma_start_xfer-replay late true 0xf00 0 9 7 ctl kept large Direction.down_stream

abbrev req : Req
req = record { src = 0; dst = 0; len = 0; dir = 0; ticket = 1; cookie = 7; ts = 0; pwork = none }

-- A request of another user, that comes between.
abbrev other : Req
other = record req { ticket = 5; cookie = 8 }

first_bit : bit 1 0 ≡ 1
unfolding bit
first_bit = refl

idle_bit : (i : ℕ) → bit 1 i ≡ 1 → i < 1
unfolding bit
idle_bit zero e = omega arith
idle_bit (suc i) e = absurd (omega (arith, bit-zero i))

ctl-IsValid : IsValid ctl
ctl-IsValid = record {
  few = omega arith;
  fits = omega arith;
  within = λ i lt set. idle_bit i set;
  free = λ i lt set. refl;
  served = λ i lt set. refl;
}

ctl-IsReady : IsReady ctl
ctl-IsReady = record {
  valid = ctl-IsValid;
  channels = omega arith;
  own = λ i j hi hj e. omega (arith, hi, hj);
  above = λ i hi. refl;
  holding = λ i hi clear none. clear (ground (arith, hi, first_bit));
}

late-Serves : Serves late
late-Serves = record { memory = refl; copied_in = refl; bus = omega arith; copied_out = refl }

do_dma_start_xfer-completes_example :
    let r = do_dma_start_xfer late true 0xf00 0 9 7 ctl kept small Direction.up_stream in
    (call : Xfer) × (r.xfers ≡ call ∷ [])
    × (call.len ≡ 32)
    × ((done : Done) × ((dma_done arch r.ctl (r.ctl.ch call.chan).irq 20 21 zeroed).result
          ≡ ok done)
        × (done.ticket ≡ 1)
        × (done.completed ≡ some 0xf00))
    × (r.calls ≡ pci_map_single (some 0x4000) 32 0x9000 ∷ [])
    × (r.result ≡ err etimedout)
unfolding alloc_dma_req get_ticket
do_dma_start_xfer-completes_example =
    do_dma_start_xfer-completes late 0xf00 0 9 7 ctl kept small Direction.up_stream req 0 arch 20 21
      zeroed ctl-IsReady (omega arith) first_bit (omega arith) (omega arith) late-Serves (λ e. cc)
      refl

do_dma_start_xfer-freed_in_use_example :
    let r = do_dma_start_xfer late true 0xf00 0 9 7 ctl kept small Direction.up_stream in
    let m = run arch r.ctl zeroed (starts other 12 ∷ []) in
    let second =
      do_dma_start_xfer late true 0xe00 1 30 8 m.ctl r.saved large Direction.down_stream in
    (r.calls ≡ pci_map_single (some 0x4000) 32 0x9000 ∷ [])
    × (r.result ≡ err etimedout)
    × (r.ctl ≡ (start_dma_xfer ctl (user_req req small Direction.up_stream 0x9000 0xf00) 9).0)
    × (0 < bifrost_module.Dma.Conserved.held 1 m.ctl)
    × ((rest : List Call) × (second.calls ≡ dma_free_coherent 64 0x4000 0x5000 ∷ rest))
unfolding alloc_dma_req get_ticket
do_dma_start_xfer-freed_in_use_example =
    do_dma_start_xfer-freed_in_use late 0xf00 0 9 7 ctl kept small Direction.up_stream arch zeroed
      (starts other 12 ∷ []) 0x4000 req late 0xe00 1 30 8 large Direction.down_stream
      (record req { ticket = 2; cookie = 8 }) ctl-IsValid refl (omega arith) (omega arith)
      late-Serves (λ e. cc) refl refl refl (omega arith) refl
