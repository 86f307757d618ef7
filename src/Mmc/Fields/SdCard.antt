-- ===== src/Mmc/Fields/SdCard.antt =====
-- server/src/mmc.h: the registers of SD cards.
use emmc_driver.Base.{[], ◌∷◌}
use emmc_driver.Reg.{Layout, bits, raw}

abbrev pub reg_scr : Layout
reg_scr =
    bits 60 63 "scr_structure"
    ∷ bits 56 59 "sd_spec"
    ∷ bits 55 55 "data_stat_after_erase"
    ∷ bits 52 54 "sd_security"
    ∷ bits 50 50 "sd_bus_width_4"
    ∷ bits 48 48 "sd_bus_width_1"
    ∷ bits 47 47 "sd_spec3"
    ∷ bits 43 46 "ex_security"
    ∷ bits 42 42 "sd_spec4"
    ∷ bits 38 41 "sd_specx"
    ∷ bits 35 35 "cmd58_cmd59_support"
    ∷ bits 34 34 "cmd48_cmd49_support"
    ∷ bits 33 33 "cmd23_support"
    ∷ bits 32 32 "cmd20_support"
    ∷ []

abbrev pub reg_ssr : Layout
reg_ssr =
    raw 15 30 31 "dat_bus_width"
    ∷ raw 15 29 29 "secured_mode"
    ∷ raw 15 0 15 "sd_card_type"
    ∷ raw 14 0 31 "size_of_protected_area"
    ∷ raw 13 24 31 "speed_class"
    ∷ raw 13 16 23 "performance_move"
    ∷ raw 13 12 15 "au_size"
    ∷ raw 13 0 7 "erase_size_hi"
    ∷ raw 12 24 31 "erase_size_lo"
    ∷ raw 12 18 23 "erase_timeout"
    ∷ raw 12 16 17 "erase_offset"
    ∷ raw 12 12 15 "uhs_speed_grade"
    ∷ raw 12 8 11 "uhs_au_size"
    ∷ raw 12 0 7 "video_speed_class"
    ∷ raw 11 16 25 "vsc_au_size"
    ∷ raw 10 9 9 "card_maint"
    ∷ raw 10 9 9 "host_maint"
    ∷ raw 10 10 10 "supp_cache"
    ∷ raw 10 11 15 "supp_cmd_queue"
    ∷ raw 10 16 19 "app_perf_class"
    ∷ raw 9 24 24 "fule_support"
    ∷ raw 9 25 25 "discard_support"
    ∷ []

abbrev pub reg_switch_func : Layout
reg_switch_func =
    raw 15 16 31 "max_curr_power"
    ∷ raw 15 0 15 "supp_bits_grp6"
    ∷ raw 14 16 31 "supp_bits_grp5"
    ∷ raw 14 0 15 "supp_bits_grp4"
    ∷ raw 14 4 4 "power_limit_180w"
    ∷ raw 14 3 3 "power_limit_288w"
    ∷ raw 14 2 2 "power_limit_216w"
    ∷ raw 14 1 1 "power_limit_144w"
    ∷ raw 14 0 0 "power_limit_072w"
    ∷ raw 13 16 31 "supp_bits_grp3"
    ∷ raw 13 19 19 "strength_type_d"
    ∷ raw 13 18 18 "strength_type_c"
    ∷ raw 13 17 17 "strength_type_a"
    ∷ raw 13 16 16 "strength_type_b"
    ∷ raw 13 0 15 "supp_bits_grp2"
    ∷ raw 12 16 31 "supp_bits_grp1"
    ∷ raw 12 20 20 "acc_mode_ddr50"
    ∷ raw 12 19 19 "acc_mode_sdr104"
    ∷ raw 12 18 18 "acc_mode_sdr50"
    ∷ raw 12 17 17 "acc_mode_sdr25"
    ∷ raw 12 16 16 "acc_mode_sdr12"
    ∷ raw 12 12 15 "fun_sel_grp6"
    ∷ raw 12 8 11 "fun_sel_grp5"
    ∷ raw 12 4 7 "fun_sel_grp4"
    ∷ raw 12 0 3 "fun_sel_grp3"
    ∷ raw 11 28 31 "fun_sel_grp2"
    ∷ raw 11 24 27 "fun_sel_grp1"
    ∷ raw 11 16 23 "data_struct_vers"
    ∷ raw 11 0 15 "busy_stat_fun_grp6"
    ∷ raw 10 16 31 "busy_stat_fun_grp5"
    ∷ raw 10 0 15 "busy_stat_fun_grp4"
    ∷ raw 9 16 31 "busy_stat_fun_grp3"
    ∷ raw 9 0 15 "busy_stat_fun_grp2"
    ∷ raw 8 16 31 "busy_stat_fun_grp1"
    ∷ []
