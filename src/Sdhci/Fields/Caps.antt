-- ===== src/Sdhci/Fields/Caps.antt =====
-- server/src/drv_sdhci.h: the registers of capabilities, and the mixer.
use emmc_driver.Base.{[], ◌∷◌}
use emmc_driver.Reg.{Layout, bits}

abbrev pub reg_host_ctrl_cap : Layout
reg_host_ctrl_cap =
    bits 28 28 "bit64_v3"
    ∷ bits 27 27 "bit64_v4"
    ∷ bits 26 26 "vs18"
    ∷ bits 25 25 "vs30"
    ∷ bits 24 24 "vs33"
    ∷ bits 23 23 "srs"
    ∷ bits 22 22 "dmas"
    ∷ bits 21 21 "hss"
    ∷ bits 20 20 "admas"
    ∷ bits 16 18 "mbl"
    ∷ bits 14 15 "retuning_mode"
    ∷ bits 13 13 "use_tuning_sdr50"
    ∷ bits 8 11 "time_count_retuning"
    ∷ bits 2 2 "ddr50_support"
    ∷ bits 1 1 "sdr104_support"
    ∷ bits 0 0 "sdr50_support"
    ∷ []

abbrev pub reg_cap1_sdhci : Layout
reg_cap1_sdhci =
    bits 30 31 "slot_type"
    ∷ bits 29 29 "async_int_support"
    ∷ bits 28 28 "bit64_v3"
    ∷ bits 27 27 "bit64_v4"
    ∷ bits 26 26 "vs18"
    ∷ bits 25 25 "vs30"
    ∷ bits 24 24 "vs33"
    ∷ bits 23 23 "srs"
    ∷ bits 22 22 "dmas"
    ∷ bits 21 21 "hss"
    ∷ bits 19 19 "adma2s"
    ∷ bits 18 18 "bit8_bus"
    ∷ bits 16 17 "mbl"
    ∷ bits 8 15 "base_freq"
    ∷ bits 7 7 "timeout_clock_unit"
    ∷ bits 0 5 "timeout_clock_freq"
    ∷ []

abbrev pub reg_wtmk_lvl : Layout
reg_wtmk_lvl =
    bits 24 28 "wr_brst_len"
    ∷ bits 16 23 "wr_wml"
    ∷ bits 8 12 "rd_brst_len"
    ∷ bits 0 7 "rd_wml"
    ∷ []

abbrev pub reg_cap2_sdhci : Layout
reg_cap2_sdhci =
    bits 28 28 "vdd2_18_support"
    ∷ bits 27 27 "adma2_support"
    ∷ bits 16 23 "clock_mult"
    ∷ bits 14 15 "retune_modes"
    ∷ bits 13 13 "tune_sdr50"
    ∷ bits 8 11 "timer_count_retune"
    ∷ bits 6 6 "driver_type_d_support"
    ∷ bits 5 5 "driver_type_c_support"
    ∷ bits 4 4 "driver_type_a_support"
    ∷ bits 3 3 "uhs2_support"
    ∷ bits 2 2 "ddr50_support"
    ∷ bits 1 1 "sdr104_support"
    ∷ bits 0 0 "sdr50_support"
    ∷ []

abbrev pub reg_mix_ctrl : Layout
reg_mix_ctrl =
    bits 27 27 "en_hs400_mo"
    ∷ bits 26 26 "hs400_mo"
    ∷ bits 25 25 "fbclk_sel"
    ∷ bits 24 24 "auto_tune_en"
    ∷ bits 23 23 "smp_clk_sel"
    ∷ bits 22 22 "exe_tune"
    ∷ bits 7 7 "ac23en"
    ∷ bits 6 6 "nibble_pos"
    ∷ bits 5 5 "msbsel"
    ∷ bits 4 4 "dtdsel"
    ∷ bits 3 3 "ddr_en"
    ∷ bits 2 2 "ac12en"
    ∷ bits 1 1 "bcen"
    ∷ bits 0 0 "dmaen"
    ∷ []

abbrev pub reg_max_current : Layout
reg_max_current =
    bits 16 23 "max_current_18v_vdd1"
    ∷ bits 8 15 "max_current_30v_vdd1"
    ∷ bits 0 7 "max_current_33v_vdd1"
    ∷ []

abbrev pub reg_max_current2 : Layout
reg_max_current2 = bits 0 7 "max_current_18v_vdd2" ∷ []

abbrev pub reg_adma_err_status : Layout
reg_adma_err_status = bits 3 3 "admadce" ∷ bits 2 2 "adamlme" ∷ bits 0 1 "adames" ∷ []
