-- ===== src/Dma/Ready.antt =====
-- The state of a DMA engine whose channels were idle when it was set up.
use bifrost_module.Base.{
  ℕ, ◌≤◌, ◌<◌, ◌≡◌, ◌≢◌, Option, none, some, List, [], ◌∷◌, arith, bit, bit-set_bit, bit-clear_bit,
}
use bifrost_module.Stats.{Stats, Arch}
use bifrost_module.Dma.{
  Req, Ctl, set_in_progress, kick_off_xfer, free_chan, start_on, start_dma_xfer, next_on, done_req,
  done_chan, dma_done, spurious,
}
use bifrost_module.Dma.Channels.{
  Found, busy, got, find_1st_idle_chan-Found, Looked, unknown, known, lookup_chan-Looked,
}
use bifrost_module.Dma.Invariant.{IsValid, start_dma_xfer-IsValid, dma_done-IsValid}

-- Each channel has its own interrupt; those from `num_ch` on hold nothing; and a channel that is not
-- marked idle holds a request.
pub record IsReady (ctl : Ctl) : Type 0 where
  pub valid : IsValid ctl
  pub channels : 0 < ctl.num_ch
  pub own : (i j : ℕ) → i < ctl.num_ch → j < ctl.num_ch → (ctl.ch i).irq ≡ (ctl.ch j).irq → i ≡ j
  pub above : (i : ℕ) → ctl.num_ch ≤ i → (ctl.ch i).in_progress ≡ none
  pub holding : (i : ℕ) → i < ctl.num_ch → bit ctl.idle_bitmap i ≢ 1 → (ctl.ch i).in_progress ≢ none

start_on-IsReady :
    {ctl : Ctl} {f : Ctl × Option ℕ} (req : Req) (now : ℕ)
    → IsReady ctl
    → Found ctl f
    → IsValid (start_on f req now).0
    → IsReady (start_on f req now).0
unfolding start_on kick_off_xfer set_in_progress
start_on-IsReady {ctl} req now r (busy full) w = record {
  valid = w;
  channels = r.channels;
  own = r.own;
  above = r.above;
  holding = r.holding;
}
start_on-IsReady {ctl} req now r (got ch lt hit lower) w = record {
  valid = w;
  channels = r.channels;
  own = λ i j hi hj e. r.own i j hi hj (ground arith);
  above = λ i hi. ground (arith, r.above i hi, r.valid.within ch lt hit);
  holding = λ i hi clear none.
      ground
        (arith, r.holding i hi, bit-clear_bit ctl.idle_bitmap ch i lt (omega (arith, r.valid.few)));
}

pub start_dma_xfer-IsReady :
    {ctl : Ctl} (req : Req) (now : ℕ) → IsReady ctl → IsReady (start_dma_xfer ctl req now).0
unfolding start_dma_xfer
start_dma_xfer-IsReady {ctl} req now r =
    start_on-IsReady req now r (find_1st_idle_chan-Found ctl)
      (start_dma_xfer-IsValid req now r.valid)

next_on-IsReady :
    {ctl : Ctl} (l : List Req) (ch now : ℕ)
    → IsReady ctl
    → ch < ctl.num_ch
    → IsValid (next_on l (set_in_progress ctl ch none) ch now).0
    → IsReady (next_on l (set_in_progress ctl ch none) ch now).0
unfolding next_on kick_off_xfer set_in_progress free_chan
next_on-IsReady {ctl} [] ch now r lt w = record {
  valid = w;
  channels = r.channels;
  own = λ i j hi hj e. r.own i j hi hj (ground arith);
  above = λ i hi. ground (arith, r.above i hi);
  holding = λ i hi clear none. ground (arith, r.holding i hi, bit-set_bit ctl.idle_bitmap ch i);
}
next_on-IsReady {ctl} (req ∷ rest) ch now r lt w = record {
  valid = w;
  channels = r.channels;
  own = λ i j hi hj e. r.own i j hi hj (ground arith);
  above = λ i hi. ground (arith, r.above i hi);
  holding = λ i hi clear none. ground (arith, r.holding i hi);
}

done_req-IsReady :
    {ctl : Ctl} (o : Option Req) (a : Arch) (ch stop start : ℕ) (stats : Stats)
    → IsReady ctl
    → ch < ctl.num_ch
    → IsValid (done_req o a ctl ch stop start stats).ctl
    → IsReady (done_req o a ctl ch stop start stats).ctl
unfolding done_req
done_req-IsReady none a ch stop start stats r lt w = r
done_req-IsReady {ctl} (some req) a ch stop start stats r lt w =
    next_on-IsReady ctl.list ch start r lt w

done_chan-IsReady :
    {ctl : Ctl} {irq : ℕ} {f : Option ℕ} (a : Arch) (stop start : ℕ) (stats : Stats)
    → IsReady ctl
    → Looked ctl irq f
    → IsValid (done_chan f a ctl stop start stats).ctl
    → IsReady (done_chan f a ctl stop start stats).ctl
unfolding done_chan spurious
done_chan-IsReady a stop start stats r (unknown h) w = r
done_chan-IsReady a stop start stats r (known ch lt e before) w =
    done_req-IsReady _ a ch stop start stats r lt w

pub dma_done-IsReady :
    {ctl : Ctl} (a : Arch) (irq stop start : ℕ) (stats : Stats)
    → IsReady ctl
    → IsReady (dma_done a ctl irq stop start stats).ctl
unfolding dma_done
dma_done-IsReady {ctl} a irq stop start stats r =
    done_chan-IsReady a stop start stats r (lookup_chan-Looked ctl irq)
      (dma_done-IsValid a irq stop start stats r.valid)
