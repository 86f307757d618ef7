-- ===== src/Layouts/Shared.antt =====
-- The registers of server/src/drv_sdhi.h, server/src/drv_sdhci.h and server/src/mmc.h: the fields
-- that are declared on bits of another field, as its parts or as a second name.
use Prim.Native.String.{String, compare}
use text.Mathlib.Text.{is_eq}
use emmc_driver.Base.{Bool, false, ◌&&◌, ◌||◌, List, [], ◌∷◌}
use emmc_driver.Reg.{Field}

-- A field, and the fields on its bits. All are the parts of a group, or two readings of the same
-- bits, but for two oddities of mmc.h: `com_crc_error` reaches into `lock_unlock_failed`, and
-- `host_maint` is declared on the bit of `card_maint`.
abbrev pub shared_bits : List (String × List String)
shared_bits =
    (
      "dlsl",
      "d0lsl" ∷ "d1lsl" ∷ "d2lsl" ∷ "d3lsl" ∷ "d4lsl" ∷ "d5lsl" ∷ "d6lsl" ∷ "d7lsl" ∷ "scs" ∷ "hrvs"
          ∷ "clsl" ∷ [],
    )
    ∷ ("datlsl", "dat0lsl" ∷ [])
    ∷ ("d4lsl", "scs" ∷ [])
    ∷ ("d1lsl", "hrvs" ∷ [])
    ∷ ("d0lsl", "clsl" ∷ [])
    ∷ (
      "cf8_cf39",
      "cf8" ∷ "cf9" ∷ "cf10" ∷ "cf11" ∷ "cf12" ∷ "cf13" ∷ "cf14" ∷ "cf15" ∷ "cf16" ∷ "cf17" ∷ "cf18"
          ∷ "cf19" ∷ "cf20" ∷ "cf21" ∷ "cf22" ∷ "cf23" ∷ "cf24" ∷ "cf25" ∷ "cf26" ∷ "cf27" ∷ "cf28"
          ∷ "cf29" ∷ "cf30" ∷ "cf31" ∷ "cf32" ∷ "cf33" ∷ "cf34" ∷ "cf35" ∷ "cf36" ∷ "cf37" ∷ "cf38"
          ∷ "cf39" ∷ [],
    )
    ∷ ("com_crc_error", "lock_unlock_failed" ∷ [])
    ∷ ("sdclkfs", "clk_freq8" ∷ [])
    ∷ ("dvs", "clk_freq_ms2" ∷ "clk_gensel" ∷ [])
    ∷ ("div", "div0" ∷ "div1" ∷ "div2" ∷ "div3" ∷ "div4" ∷ "div5" ∷ "div6" ∷ "div7" ∷ [])
    ∷ (
      "voltrange_mmc",
      "mv1700_1950" ∷ "mv2000_2100" ∷ "mv2100_2200" ∷ "mv2200_2300" ∷ "mv2300_2400" ∷ "mv2400_2500"
          ∷ "mv2500_2600" ∷ "mv2600_2700" ∷ "mv2700_2800" ∷ "mv2800_2900" ∷ "mv2900_3000"
          ∷ "mv3000_3100" ∷ "mv3100_3200" ∷ "mv3200_3300" ∷ "mv3300_3400" ∷ "mv3400_3500"
          ∷ "mv3500_3600" ∷ "voltrange_sd" ∷ [],
    )
    ∷ (
      "voltrange_sd",
      "mv2700_2800" ∷ "mv2800_2900" ∷ "mv2900_3000" ∷ "mv3000_3100" ∷ "mv3100_3200" ∷ "mv3200_3300"
          ∷ "mv3300_3400" ∷ "mv3400_3500" ∷ "mv3500_3600" ∷ [],
    )
    ∷ ("driver_strength", "selected_strength" ∷ [])
    ∷ (
      "supp_bits_grp4",
      "power_limit_180w" ∷ "power_limit_288w" ∷ "power_limit_216w" ∷ "power_limit_144w"
          ∷ "power_limit_072w" ∷ [],
    )
    ∷ (
      "supp_bits_grp3",
      "strength_type_d" ∷ "strength_type_c" ∷ "strength_type_a" ∷ "strength_type_b" ∷ [],
    )
    ∷ (
      "supp_bits_grp1",
      "acc_mode_ddr50" ∷ "acc_mode_sdr104" ∷ "acc_mode_sdr50" ∷ "acc_mode_sdr25" ∷ "acc_mode_sdr12"
          ∷ [],
    )
    ∷ ("card_maint", "host_maint" ∷ [])
    ∷ []

abbrev same_name : String → String → Bool
same_name a b = is_eq (compare a b)

abbrev has_name : String → List String → Bool
has_name n [] = false
has_name n (x ∷ xs) = same_name n x || has_name n xs

abbrev listed : String → String → List (String × List String) → Bool
listed a b [] = false
listed a b ((g, parts) ∷ l) = (same_name a g && has_name b parts) || listed a b l

-- The fields are the same one, or one is listed as on bits of the other.
unfoldable pub shares : Field → Field → Bool
shares f g =
    same_name f.name g.name
    || (listed f.name g.name shared_bits || listed g.name f.name shared_bits)
