-- ===== src/Dma/Dispatch.antt =====
-- What `dma_done` of bifrost/bifrost_dma.c does for an interrupt that starts nothing.
use bifrost_module.Base.{
  ℕ, ◌<◌, ◌≡◌, refl, Option, none, some, [], arith, bit, bit-set_bit, ok, err, einval,
}
use bifrost_module.Stats.{Stats, Arch}
use bifrost_module.Dma.{
  Req, Ctl, Done, spurious, done_req, done_chan, dma_done, lookup_chan, get_xfer_time_ns,
}
use bifrost_module.Dma.Channels.{Looked, unknown, known, lookup_chan-Looked}

done_chan-spurious :
    {ctl : Ctl} {irq : ℕ} {f : Option ℕ} (a : Arch) (stop start : ℕ) (stats : Stats)
    → Looked ctl irq f
    → ((i : ℕ) → i < ctl.num_ch → (ctl.ch i).irq ≡ irq → (ctl.ch i).in_progress ≡ none)
    → done_chan f a ctl stop start stats
      ≡ record { ctl = ctl; stats = stats; xfers = []; result = err einval }
unfolding done_chan done_req spurious
done_chan-spurious a stop start stats (unknown h) idle = refl
done_chan-spurious a stop start stats (known ch lt e before) idle = rw (idle ch lt e) refl

-- An interrupt that belongs to no channel below `num_ch`, or only to channels with no request in
-- progress, fails with -EINVAL, starts nothing, and leaves the controller and the statistics alone.
pub dma_done_spurious :
    (a : Arch) (ctl : Ctl) (irq stop start : ℕ) (stats : Stats)
    → ((i : ℕ) → i < ctl.num_ch → (ctl.ch i).irq ≡ irq → (ctl.ch i).in_progress ≡ none)
    → dma_done a ctl irq stop start stats
      ≡ record { ctl = ctl; stats = stats; xfers = []; result = err einval }
unfolding dma_done
dma_done_spurious a ctl irq stop start stats idle =
    done_chan-spurious a stop start stats (lookup_chan-Looked ctl irq) idle

-- What the end of `req` on channel `ch` reports.
abbrev pub report : Req → ℕ → Done
report req stop = record {
  cookie = req.cookie;
  ticket = req.ticket;
  time = get_xfer_time_ns req.ts stop;
  completed = req.pwork;
}

-- The interrupt of a channel on which `req` is in progress, while nobody waits, reports the end of
-- `req`, starts nothing, and leaves the channel empty and idle.
pub dma_done_last :
    (a : Arch) (ctl : Ctl) (irq stop start ch : ℕ) (req : Req) (stats : Stats)
    → lookup_chan ctl irq ≡ some ch
    → (ctl.ch ch).in_progress ≡ some req
    → ctl.list ≡ []
    → let o = dma_done a ctl irq stop start stats in
      (o.result ≡ ok (report req stop))
      × (o.xfers ≡ [])
      × (o.ctl.list ≡ [])
      × ((o.ctl.ch ch).in_progress ≡ none)
      × (bit o.ctl.idle_bitmap ch ≡ 1)
unfolding dma_done
dma_done_last a ctl irq stop start ch req stats found held empty =
    ground (arith, bit-set_bit ctl.idle_bitmap ch ch)
