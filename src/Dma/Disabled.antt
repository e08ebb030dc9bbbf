-- ===== src/Dma/Disabled.antt =====
-- The statistics while they are disabled.
use bifrost_module.Base.{ℕ, ◌≡◌, refl, ap, ◌∙◌, false, Option, none, some, List, [], ◌∷◌}
use bifrost_module.Stats.{Stats, Arch}
use bifrost_module.Dma.{
  Req, Ctl, start_dma_xfer, spurious, done_req, done_chan, dma_done, lookup_chan,
}
use bifrost_module.Dma.History.{Call, starts, interrupts}

-- The statistics after a history of the engine.
abbrev pub stats_after : Arch → Ctl → Stats → List Call → Stats
stats_after a ctl stats [] = stats
stats_after a ctl stats (starts req now ∷ cs) =
    stats_after a (start_dma_xfer ctl req now).0 stats cs
stats_after a ctl stats (interrupts irq stop start ∷ cs) =
    let o = dma_done a ctl irq stop start stats in stats_after a o.ctl o.stats cs

stats-done_req :
    (o : Option Req) (a : Arch) (ctl : Ctl) (ch stop start : ℕ) (stats : Stats)
    → stats.enabled ≡ false
    → (done_req o a ctl ch stop start stats).stats ≡ stats
unfolding done_req
stats-done_req none a ctl ch stop start stats off = refl
stats-done_req (some req) a ctl ch stop start stats off = simp (off)

stats-done_chan :
    (f : Option ℕ) (a : Arch) (ctl : Ctl) (stop start : ℕ) (stats : Stats)
    → stats.enabled ≡ false
    → (done_chan f a ctl stop start stats).stats ≡ stats
unfolding done_chan spurious
stats-done_chan none a ctl stop start stats off = refl
stats-done_chan (some ch) a ctl stop start stats off =
    stats-done_req (ctl.ch ch).in_progress a ctl ch stop start stats off

pub stats_after-disabled :
    (a : Arch) (ctl : Ctl) (stats : Stats) (cs : List Call)
    → stats.enabled ≡ false
    → stats_after a ctl stats cs ≡ stats
unfolding dma_done
stats_after-disabled a ctl stats [] off = refl
stats_after-disabled a ctl stats (starts req now ∷ cs) off =
    stats_after-disabled a (start_dma_xfer ctl req now).0 stats cs off
stats_after-disabled a ctl stats (interrupts irq stop start ∷ cs) off =
    let same = stats-done_chan (lookup_chan ctl irq) a ctl stop start stats off in
    let o = dma_done a ctl irq stop start stats in
    stats_after-disabled a o.ctl o.stats cs (ap (λ (t : Stats). t.enabled) same ∙ off) ∙ same
