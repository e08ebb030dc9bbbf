-- ===== src/Dma/Conserved.antt =====
-- No request of the DMA engine is lost or served twice, over any history of starts and interrupts.
use bifrost_module.Base.{
  ℕ, ◌+◌, ◌<◌, ◌≡◌, refl, Option, none, some, arith, ◌==◌, if◌then◌else◌, Result, ok, err,
}
use bifrost_module.Stats.{Stats, Arch}
use bifrost_module.Dma.{Req, Ctl, start_dma_xfer, Done, spurious, done_req, done_chan, dma_done}
use bifrost_module.Dma.Channels.{Looked, unknown, known, lookup_chan-Looked}
use bifrost_module.Dma.Invariant.{IsValid}
use bifrost_module.Dma.Weight.{weight, weight-start_dma_xfer, weight-done_req}

-- How many of the requests that the controller holds have ticket t.
abbrev pub one : ℕ → Req → ℕ
one t r = if r.ticket == t then 1 else 0

pub held : ℕ → Ctl → ℕ
held t ctl = weight (one t) ctl

pub start_dma_xfer-held :
    (ctl : Ctl) (t : ℕ) (req : Req) (now : ℕ)
    → IsValid ctl
    → held t (start_dma_xfer ctl req now).0 ≡ held t ctl + one t req
unfolding held
start_dma_xfer-held ctl t req now v = weight-start_dma_xfer (one t) (λ r n. refl) ctl req now v

-- The requests with ticket t that a result reports as ended.
abbrev pub reported : ℕ → Result Done → ℕ
reported t (ok d) = if d.ticket == t then 1 else 0
reported t (err e) = 0

done_req-held :
    (t : ℕ) (o : Option Req) (a : Arch) (ctl : Ctl) (ch stop start : ℕ) (stats : Stats)
    → ch < 32
    → (ctl.ch ch).in_progress ≡ o
    → held t (done_req o a ctl ch stop start stats).ctl
        + reported t (done_req o a ctl ch stop start stats).result
      ≡ held t ctl
unfolding done_req held
done_req-held t none a ctl ch stop start stats lt e =
    weight-done_req (one t) (λ r n. refl) none a ctl ch stop start stats lt e
done_req-held t (some req) a ctl ch stop start stats lt e =
    weight-done_req (one t) (λ r n. refl) (some req) a ctl ch stop start stats lt e

done_chan-held :
    {ctl : Ctl} {irq : ℕ} {f : Option ℕ} (t : ℕ) (a : Arch) (stop start : ℕ) (stats : Stats)
    → IsValid ctl
    → Looked ctl irq f
    → held t (done_chan f a ctl stop start stats).ctl
        + reported t (done_chan f a ctl stop start stats).result
      ≡ held t ctl
unfolding done_chan spurious
done_chan-held t a stop start stats v (unknown h) = omega arith
done_chan-held {ctl} t a stop start stats v (known ch lt e before) =
    done_req-held t _ a ctl ch stop start stats (omega (arith, v.few)) refl

pub dma_done-held :
    (t : ℕ) (a : Arch) (ctl : Ctl) (irq stop start : ℕ) (stats : Stats)
    → IsValid ctl
    → held t (dma_done a ctl irq stop start stats).ctl
        + reported t (dma_done a ctl irq stop start stats).result
      ≡ held t ctl
unfolding dma_done
dma_done-held t a ctl irq stop start stats v =
    done_chan-held t a stop start stats v (lookup_chan-Looked ctl irq)
