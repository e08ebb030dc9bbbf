-- ===== src/Dma/Invariant.antt =====
-- The state of the DMA controller between two operations, and that `start_dma_xfer` and `dma_done`
-- keep it.
use bifrost_module.Base.{
  ℕ, ◌^◌, ◌≤◌, ◌<◌, ◌≡◌, refl, ◌≢◌, Option, none, some, List, [], ◌∷◌, arith, bit, bit-set_bit,
  bit-clear_bit, set_bit-lt, clear_bit-lt, true,
}
use bifrost_module.Stats.{Stats, Arch}
use bifrost_module.Dma.{
  Req, Ctl, set_in_progress, kick_off_xfer, free_chan, start_on, start_dma_xfer, next_on, done_req,
  done_chan, dma_done, alloc_dma_ctl,
}
use bifrost_module.Dma.Channels.{
  Found, busy, got, find_1st_idle_chan-Found, Looked, unknown, known, lookup_chan-Looked,
}

-- Bits are set for channels below `num_ch` only; an idle channel holds no request; and a request
-- waits only while no channel is idle.
pub record IsValid (ctl : Ctl) : Type 0 where
  pub few : ctl.num_ch ≤ 32
  pub fits : ctl.idle_bitmap < 2 ^ 32
  pub within : (i : ℕ) → i < 32 → bit ctl.idle_bitmap i ≡ 1 → i < ctl.num_ch
  pub free : (i : ℕ) → i < 32 → bit ctl.idle_bitmap i ≡ 1 → (ctl.ch i).in_progress ≡ none
  pub served : (i : ℕ) → i < 32 → bit ctl.idle_bitmap i ≡ 1 → ctl.list ≡ []

start_on-IsValid :
    {ctl : Ctl} {f : Ctl × Option ℕ} (req : Req) (now : ℕ)
    → IsValid ctl
    → Found ctl f
    → IsValid (start_on f req now).0
unfolding start_on kick_off_xfer set_in_progress
start_on-IsValid {ctl} req now v (busy full) = record {
  few = v.few;
  fits = v.fits;
  within = v.within;
  free = v.free;
  served = λ i lt set. ground (arith, full i lt);
}
start_on-IsValid {ctl} req now v (got ch lt hit lower) = record {
  few = v.few;
  fits = clear_bit-lt ctl.idle_bitmap ch v.fits;
  within = λ i hi set. ground (arith, bit-clear_bit ctl.idle_bitmap ch i lt hi, v.within i hi);
  free = λ i hi set. ground (arith, bit-clear_bit ctl.idle_bitmap ch i lt hi, v.free i hi);
  served = λ i hi set. ground (arith, bit-clear_bit ctl.idle_bitmap ch i lt hi, v.served i hi);
}

pub start_dma_xfer-IsValid :
    {ctl : Ctl} (req : Req) (now : ℕ) → IsValid ctl → IsValid (start_dma_xfer ctl req now).0
unfolding start_dma_xfer
start_dma_xfer-IsValid {ctl} req now v = start_on-IsValid req now v (find_1st_idle_chan-Found ctl)

-- A channel on which a request is in progress is not idle.
pub busy_bit :
    {ctl : Ctl} (ch : ℕ) {req : Req}
    → IsValid ctl
    → ch < 32
    → (ctl.ch ch).in_progress ≡ some req
    → bit ctl.idle_bitmap ch ≢ 1
busy_bit {ctl} ch v lt e set = ground (arith, v.free ch lt)

next_on-IsValid :
    {ctl : Ctl} (l : List Req) (ch now : ℕ)
    → IsValid ctl
    → ctl.list ≡ l
    → ch < ctl.num_ch
    → bit ctl.idle_bitmap ch ≢ 1
    → IsValid (next_on l (set_in_progress ctl ch none) ch now).0
unfolding next_on kick_off_xfer set_in_progress free_chan
next_on-IsValid {ctl} [] ch now v e lt clear = record {
  few = v.few;
  fits = set_bit-lt ctl.idle_bitmap ch v.fits (omega (arith, v.few));
  within = λ i hi set. ground (arith, bit-set_bit ctl.idle_bitmap ch i, v.within i hi);
  free = λ i hi set. ground (arith, bit-set_bit ctl.idle_bitmap ch i, v.free i hi);
  served = λ i hi set. e;
}
next_on-IsValid {ctl} (req ∷ rest) ch now v e lt clear = record {
  few = v.few;
  fits = v.fits;
  within = v.within;
  free = λ i hi set. ground (arith, v.free i hi);
  served = λ i hi set. ground (arith, v.served i hi);
}

done_req-IsValid :
    {ctl : Ctl} (o : Option Req) (a : Arch) (ch stop start : ℕ) (stats : Stats)
    → IsValid ctl
    → ch < ctl.num_ch
    → (ctl.ch ch).in_progress ≡ o
    → IsValid (done_req o a ctl ch stop start stats).ctl
unfolding done_req
done_req-IsValid none a ch stop start stats v lt e = v
done_req-IsValid {ctl} (some req) a ch stop start stats v lt e =
    next_on-IsValid ctl.list ch start v refl lt (busy_bit ch v (omega (arith, v.few)) e)

done_chan-IsValid :
    {ctl : Ctl} {irq : ℕ} {f : Option ℕ} (a : Arch) (stop start : ℕ) (stats : Stats)
    → IsValid ctl
    → Looked ctl irq f
    → IsValid (done_chan f a ctl stop start stats).ctl
unfolding done_chan
done_chan-IsValid a stop start stats v (unknown h) = v
done_chan-IsValid a stop start stats v (known ch lt e before) =
    done_req-IsValid _ a ch stop start stats v lt refl

pub dma_done-IsValid :
    {ctl : Ctl} (a : Arch) (irq stop start : ℕ) (stats : Stats)
    → IsValid ctl
    → IsValid (dma_done a ctl irq stop start stats).ctl
unfolding dma_done
dma_done-IsValid {ctl} a irq stop start stats v =
    done_chan-IsValid a stop start stats v (lookup_chan-Looked ctl irq)

-- A controller whose idle map names channels below `num_ch` starts valid.
pub alloc_dma_ctl-IsValid :
    (num_ch idle_map : ℕ) {ctl : Ctl}
    → idle_map < 2 ^ 32
    → num_ch ≤ 32
    → ((i : ℕ) → i < 32 → bit idle_map i ≡ 1 → i < num_ch)
    → alloc_dma_ctl true num_ch idle_map ≡ some ctl
    → IsValid ctl
unfolding alloc_dma_ctl
alloc_dma_ctl-IsValid num_ch idle_map {ctl} fits few within e = record {
  few = ground arith;
  fits = ground arith;
  within = λ i lt set. ground (arith, within i lt);
  free = λ i lt set. ground arith;
  served = λ i lt set. ground arith;
}
