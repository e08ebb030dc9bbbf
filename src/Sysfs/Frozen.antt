-- ===== src/Sysfs/Frozen.antt =====
-- What the attributes show while the statistics are disabled: the store of bifrost/bifrost_pci.c and
-- the DMA engine of bifrost/bifrost_dma.c together.
use bifrost_module.Base.{ℕ, ◌≡◌, refl, ap, ◌∙◌, false, some, List, ok}
use bifrost_module.Stats.{Stats, Arch}
use bifrost_module.Dma.{Ctl}
use bifrost_module.Dma.History.{Call}
use bifrost_module.Dma.Disabled.{stats_after, stats_after-disabled}
use bifrost_module.Sysfs.{Attribute, Shown, Format, show, store_enable}

-- What is shown once the statistics are disabled.
abbrev pub frozen : Attribute → Stats → Shown
frozen Attribute.stats_enable s = record { value = 0; format = Format.plain }
frozen attribute s = show attribute s

show-disabled :
    (attribute : Attribute) (s : Stats)
    → show attribute (record s { enabled = false }) ≡ frozen attribute s
unfolding show
show-disabled Attribute.stats_enable s = refl
show-disabled attribute s = refl

-- Storing 0 returns the length of the text; from then on, after any history of the DMA engine, each
-- attribute shows what it showed before the store, but for `stats_enable`, which shows 0.
pub store_enable-disabled :
    (a : Arch) (ctl : Ctl) (stats : Stats) (count : ℕ) (cs : List Call) (attribute : Attribute)
    → let (stats', rc) = store_enable (some 0) count stats in
      (rc ≡ ok count) × (show attribute (stats_after a ctl stats' cs) ≡ frozen attribute stats)
unfolding store_enable
store_enable-disabled a ctl stats count cs attribute = (
  refl,
  ap (show attribute) (stats_after-disabled a ctl (record stats { enabled = false }) cs refl)
      ∙ show-disabled attribute stats,
)
