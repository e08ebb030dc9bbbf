-- ===== src/Dma/History.antt =====
-- Histories of the DMA engine, and that over any history no request is lost or served twice.
use bifrost_module.Base.{ℕ, ◌+◌, ◌≡◌, List, [], ◌∷◌, ◌++◌, arith, Result}
use bifrost_module.Stats.{Stats, Arch}
use bifrost_module.Dma.{Req, Ctl, Xfer, start_dma_xfer, Done, dma_done}
use bifrost_module.Dma.Invariant.{IsValid, start_dma_xfer-IsValid, dma_done-IsValid}
use bifrost_module.Dma.Conserved.{one, held, reported, start_dma_xfer-held, dma_done-held}

-- A history: requests that are started and interrupts that arrive, in any order.
pub data Call : Type 0 where
  starts : (req : Req) (now : ℕ) → Call
  interrupts : (irq stop start : ℕ) → Call

-- What a history leaves: the controller, the calls of `start_xfer`, the results of the interrupts.
pub record Trace : Type 0 where
  pub ctl : Ctl
  pub xfers : List Xfer
  pub results : List (Result Done)

abbrev pub run : Arch → Ctl → Stats → List Call → Trace
run a ctl stats [] = record { ctl = ctl; xfers = []; results = [] }
run a ctl stats (starts req now ∷ cs) =
    let (ctl', xs) = start_dma_xfer ctl req now in
    let t = run a ctl' stats cs in record t { xfers = xs ++ t.xfers }
run a ctl stats (interrupts irq stop start ∷ cs) =
    let o = dma_done a ctl irq stop start stats in
    let t = run a o.ctl o.stats cs in
    record t { xfers = o.xfers ++ t.xfers; results = o.result ∷ t.results }

abbrev pub started : ℕ → List Call → ℕ
started t [] = 0
started t (starts req now ∷ cs) = one t req + started t cs
started t (interrupts irq stop start ∷ cs) = started t cs

abbrev pub ended : ℕ → List (Result Done) → ℕ
ended t [] = 0
ended t (r ∷ rs) = reported t r + ended t rs

-- In any history from a valid controller, whatever the interrupts, the controller stays valid, and
-- of the requests with any one ticket those held at first and those started are exactly those that
-- an interrupt has reported as ended and those still held.
pub run-held :
    (t : ℕ) (a : Arch) (ctl : Ctl) (stats : Stats) (cs : List Call)
    → IsValid ctl
    → let h = run a ctl stats cs in
      IsValid h.ctl × (held t ctl + started t cs ≡ ended t h.results + held t h.ctl)
run-held t a ctl stats [] v = (v, omega arith)
run-held t a ctl stats (starts req now ∷ cs) v =
    let (w, e) = run-held t a _ stats cs (start_dma_xfer-IsValid req now v) in
    (w, omega (arith, e, start_dma_xfer-held ctl t req now v))
run-held t a ctl stats (interrupts irq stop start ∷ cs) v =
    let o = dma_done a ctl irq stop start stats in
    let (w, e) = run-held t a o.ctl o.stats cs (dma_done-IsValid a irq stop start stats v) in
    (w, omega (arith, e, dma_done-held t a ctl irq stop start stats v))
