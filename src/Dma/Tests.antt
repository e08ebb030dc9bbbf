-- ===== src/Dma/Tests.antt =====
-- Runs of the DMA engine, and its theorems at concrete inputs.
use bifrost_module.Base.{
  true, false, ℕ, zero, suc, ◌+◌, ◌<◌, ◌^◌, ◌≡◌, refl, ◌≢◌, none, some, List, [], ◌∷◌, ◌++◌, arith,
  bit-zero, ◌/◌,
}
use bifrost_module.Base.Bits.{bit}
use bifrost_module.Stats.{zeroed, Arch}
use bifrost_module.Dma.{Req, Ctl, alloc_dma_req, dma_done, lookup_chan}
use bifrost_module.Dma.Invariant.{IsValid}
use bifrost_module.Dma.Conserved.{held}
use bifrost_module.Dma.History.{Call, starts, interrupts, run, started, ended, run-held}
use bifrost_module.Dma.Smp
use bifrost_module.Dma.Smp.{Step, submits, ends, serves, kicks_off, from, submitted}
use bifrost_module.Dma.Smp.Turns.{Order, called, to_kick, asked, run-order}
use bifrost_module.Dma.Tickets.{alloc_dma_req_distinct}

abbrev arm : Arch
arm = record { ulong = 2 ^ 32; do_div = λ n d. n / d }

abbrev req : ℕ → Req
req t = record {
  src = 100 + t;
  dst = 200 + t;
  len = 64;
  dir = 0;
  ticket = t;
  cookie = 7;
  ts = 0;
  pwork = none;
}

-- One channel with interrupt 40, idle.
abbrev idle : Ctl
idle = record {
  list = [];
  num_ch = 1;
  idle_bitmap = 1;
  ch = λ _. record { irq = 40; in_progress = none };
}

idle_bit : (i : ℕ) → bit 1 i ≡ 1 → i < 1
unfolding bit
idle_bit zero e = omega arith
idle_bit (suc i) e = absurd (omega (arith, bit-zero i))

idle-IsValid : IsValid idle
idle-IsValid = record {
  few = omega arith;
  fits = omega arith;
  within = λ i lt set. idle_bit i set;
  free = λ i lt set. refl;
  served = λ i lt set. refl;
}

-- Request 1 in progress, 2 and 3 waiting.
abbrev busy : Ctl
busy = record {
  list = req 2 ∷ req 3 ∷ [];
  num_ch = 1;
  idle_bitmap = 0;
  ch = λ _. record { irq = 40; in_progress = some (req 1) };
}

busy-IsValid : IsValid busy
busy-IsValid = record {
  few = omega arith;
  fits = omega arith;
  within = λ i lt set. absurd (omega (arith, bit-zero i));
  free = λ i lt set. absurd (omega (arith, bit-zero i));
  served = λ i lt set. absurd (omega (arith, bit-zero i));
}

abbrev history : List Call
history = starts (req 1) 10 ∷ starts (req 2) 11 ∷ interrupts 40 20 21 ∷ interrupts 99 30 31 ∷ []

run-held_example :
    IsValid (run arm idle zeroed history).ctl
    × (held 1 idle + started 1 history
        ≡ ended 1 (run arm idle zeroed history).results + held 1 (run arm idle zeroed history).ctl)
run-held_example = run-held 1 arm idle zeroed history idle-IsValid

-- The request 4 is submitted while the interrupt of 1 is served.
abbrev pieces : List Step
pieces = ends 40 ∷ submits (req 4) ∷ serves 0 ∷ kicks_off 0 30 ∷ []

run-order_example :
    let s = bifrost_module.Dma.Smp.run (from busy) pieces in
    (s.assigned ++ s.ctl.list ≡ req 2 ∷ req 3 ∷ req 4 ∷ [])
    × ((w : Order → ℕ) → called w s.xfers + to_kick w s.kicks ≡ asked w s.assigned)
run-order_example = run-order busy pieces busy-IsValid

alloc_dma_req_distinct_example :
    ((record (req 6) { src = 0; dst = 0; len = 0 }).ticket < 2 ^ 31)
    × ((record (req 6) { src = 0; dst = 0; len = 0 }).ticket ≢ (req 8).ticket)
unfolding alloc_dma_req
alloc_dma_req_distinct_example =
    alloc_dma_req_distinct 5 7 7 ((true, 7) ∷ (false, 9) ∷ [])
      {r = record (req 6) { src = 0; dst = 0; len = 0 }}
      {r' = record (req 8) { src = 0; dst = 0; len = 0 }} (omega arith) refl refl
