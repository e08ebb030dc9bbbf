-- ===== src/Dma/Round.antt =====
-- One transfer of the DMA engine: its start on an idle channel, and its end.
use bifrost_module.Base.{ℕ, ◌<◌, ◌≡◌, refl, Option, some, List, [], ◌∷◌, arith, bit, ok}
use bifrost_module.Stats.{Stats, Arch}
use bifrost_module.Dma.{
  Req, Ctl, Xfer, set_in_progress, kick_off_xfer, start_on, start_dma_xfer, dma_done, lookup_chan,
}
use bifrost_module.Dma.Channels.{Found, busy, got, find_1st_idle_chan-Found, lookup_chan-Looked}
use bifrost_module.Dma.Dispatch.{report}
use bifrost_module.Dma.Ready.{IsReady, start_dma_xfer-IsReady}
use bifrost_module.Dma.Drain.{Ends-own}

-- The call of `start_xfer` for a request on a channel.
abbrev pub xfer_on : ℕ → Req → Xfer
xfer_on ch req = record { chan = ch; src = req.src; dst = req.dst; len = req.len; dir = req.dir }

-- The request is in progress on an idle channel, after one call of `start_xfer`.
pub record RunsOn (ch : ℕ) (req : Req) (now : ℕ) (started : Ctl × List Xfer) : Type 0 where
  pub there : ch < started.0.num_ch
  pub held : (started.0.ch ch).in_progress ≡ some (record req { ts = now })
  pub called : started.1 ≡ xfer_on ch req ∷ []

start_on-RunsOn :
    {ctl : Ctl} {f : Ctl × Option ℕ} (req : Req) (now i : ℕ)
    → IsReady ctl
    → i < 32
    → bit ctl.idle_bitmap i ≡ 1
    → Found ctl f
    → (ch : ℕ) × RunsOn ch req now (start_on f req now)
unfolding start_on kick_off_xfer set_in_progress
start_on-RunsOn {ctl} req now i r lt idle (busy full) = absurd (omega (arith, idle, full i lt))
start_on-RunsOn {ctl} req now i r lt idle (got ch below hit lower) =
    (ch, record { there = r.valid.within ch below hit; held = ground arith; called = refl })

-- With an idle channel, a request is started at once, and the interrupt of its channel finds it.
pub start_dma_xfer-RunsOn :
    (ctl : Ctl) (req : Req) (now i : ℕ)
    → IsReady ctl
    → i < 32
    → bit ctl.idle_bitmap i ≡ 1
    → let (ctl', xfers) = start_dma_xfer ctl req now in
      (ch : ℕ) × RunsOn ch req now (start_dma_xfer ctl req now)
      × (lookup_chan ctl' (ctl'.ch ch).irq ≡ some ch)
unfolding start_dma_xfer
start_dma_xfer-RunsOn ctl req now i r lt idle =
    let (ch, runs) = start_on-RunsOn req now i r lt idle (find_1st_idle_chan-Found ctl) in
    let ctl' = (start_dma_xfer ctl req now).0 in
    (
      ch,
      runs,
      Ends-own ctl' ch (record req { ts = now }) (start_dma_xfer-IsReady req now r) runs.there
          runs.held (lookup_chan-Looked ctl' (ctl'.ch ch).irq),
    )

-- The end of a transfer reports its request, whoever waits.
pub result-dma_done :
    (a : Arch) (ctl : Ctl) (irq stop start ch : ℕ) (req : Req) (stats : Stats)
    → lookup_chan ctl irq ≡ some ch
    → (ctl.ch ch).in_progress ≡ some req
    → (dma_done a ctl irq stop start stats).result ≡ ok (report req stop)
unfolding dma_done
result-dma_done a ctl irq stop start ch req stats found held = rw (found, held) refl
