-- ===== src/Sysfs/Tests.antt =====
-- The attributes of an idle engine.
use bifrost_module.Base.{◌^◌, ◌/◌, ◌≡◌, refl, some, none, true, [], ◌∷◌, ok}
use bifrost_module.Stats.{Stats, Arch, zeroed}
use bifrost_module.Dma.{Ctl}
use bifrost_module.Dma.History.{interrupts}
use bifrost_module.Dma.Disabled.{stats_after}
use bifrost_module.Sysfs.{Attribute, Format, show, store_enable}
use bifrost_module.Sysfs.Frozen.{frozen, store_enable-disabled}

abbrev arm : Arch
arm = record { ulong = 2 ^ 32; do_div = λ n d. n / d }

abbrev used : Stats
used = record zeroed { enabled = true; write_b = 0x2800 }

abbrev engine : Ctl
engine = record {
  list = [];
  num_ch = 1;
  idle_bitmap = 0;
  ch = λ _. record {
    irq = 40;
    in_progress = some (record {
      src = 1;
      dst = 2;
      len = 64;
      dir = 0;
      ticket = 5;
      cookie = 7;
      ts = 0;
      pwork = none;
    });
  };
}

shown : show Attribute.write_b used ≡ record { value = 10; format = Format.kilobytes }
unfolding show
shown = refl

store_enable-disabled_example :
    ((store_enable (some 0) 2 used).1 ≡ ok 2)
    × (show Attribute.write_b
          (stats_after arm engine (store_enable (some 0) 2 used).0 (interrupts 40 9 10 ∷ []))
        ≡ frozen Attribute.write_b used)
store_enable-disabled_example =
    store_enable-disabled arm engine used 2 (interrupts 40 9 10 ∷ []) Attribute.write_b
