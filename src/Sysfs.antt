-- ===== src/Sysfs.antt =====
-- The sysfs attributes of bifrost/bifrost_pci.c, which show the statistics and enable them. The kernel
-- prints what is shown (scnprintf) and reads what is stored (kstrtoul).
pub mod Frozen
mod Tests
use bifrost_module.Base.{
  ℕ, ◌/◌, Bool, true, false, not, Option, none, some, List, [], ◌∷◌, ◌==◌, if◌then◌else◌, Result,
  ok, err, einval,
}
use bifrost_module.Stats.{Stats}

pub data Format : Type 0 where
  kilobytes_per_second kilobytes plain : Format

-- The number that is printed, and the format.
pub record Shown : Type 0 where
  pub value : ℕ
  pub format : Format

unfoldable pub show_read_speed_avg : Stats → Shown
show_read_speed_avg s = record {
  value = s.read_speed_avg / 1024;
  format = Format.kilobytes_per_second;
}

unfoldable pub show_write_speed_avg : Stats → Shown
show_write_speed_avg s = record {
  value = s.write_speed_avg / 1024;
  format = Format.kilobytes_per_second;
}

unfoldable pub show_read_speed_last : Stats → Shown
show_read_speed_last s = record {
  value = s.read_speed_last / 1024;
  format = Format.kilobytes_per_second;
}

unfoldable pub show_write_speed_last : Stats → Shown
show_write_speed_last s = record {
  value = s.write_speed_last / 1024;
  format = Format.kilobytes_per_second;
}

unfoldable pub show_write_b : Stats → Shown
show_write_b s = record { value = s.write_b / 1024; format = Format.kilobytes }

unfoldable pub show_read_b : Stats → Shown
show_read_b s = record { value = s.read_b / 1024; format = Format.kilobytes }

unfoldable pub show_enable : Stats → Shown
show_enable s = record { value = if s.enabled then 1 else 0; format = Format.plain }

-- `val` is what kstrtoul reads, `none` if it fails; `count` is the length of the text.
unfoldable pub store_enable : (val : Option ℕ) (count : ℕ) → Stats → Stats × Result ℕ
store_enable none count s = (s, err einval)
store_enable (some val) count s = (record s { enabled = not (val == 0) }, ok count)

pub data Attribute : Type 0 where
  read_speed_last write_speed_last read_speed_avg write_speed_avg read_b write_b stats_enable :
      Attribute

abbrev pub bifrost_attrs : List Attribute
bifrost_attrs =
    Attribute.read_speed_last ∷ Attribute.write_speed_last ∷ Attribute.read_speed_avg
    ∷ Attribute.write_speed_avg ∷ Attribute.read_b ∷ Attribute.write_b ∷ Attribute.stats_enable ∷ []

-- The `show` function of an attribute, by its DEVICE_ATTR.
unfoldable pub show : Attribute → Stats → Shown
unfolding show_read_speed_avg show_write_speed_avg show_read_speed_last show_write_speed_last
    show_write_b show_read_b show_enable
show Attribute.read_speed_last s = show_read_speed_last s
show Attribute.write_speed_last s = show_write_speed_last s
show Attribute.read_speed_avg s = show_read_speed_avg s
show Attribute.write_speed_avg s = show_write_speed_avg s
show Attribute.read_b s = show_read_b s
show Attribute.write_b s = show_write_b s
show Attribute.stats_enable s = show_enable s
