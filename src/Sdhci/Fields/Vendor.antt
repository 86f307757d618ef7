-- ===== src/Sdhci/Fields/Vendor.antt =====
-- server/src/drv_sdhci.h: the registers for delays and tuning, and those of vendors.
use emmc_driver.Base.{[], ◌∷◌}
use emmc_driver.Reg.{Layout, bits}

abbrev pub reg_clk_tune_ctrl_status : Layout
reg_clk_tune_ctrl_status =
    bits 31 31 "pre_err"
    ∷ bits 24 30 "tap_sel_pre"
    ∷ bits 20 23 "tap_sel_out"
    ∷ bits 16 19 "tap_sel_post"
    ∷ bits 15 15 "nxt_err"
    ∷ bits 8 14 "dly_cell_set_pre"
    ∷ bits 4 7 "dly_cell_set_out"
    ∷ bits 0 3 "dly_cell_set_post"
    ∷ []

abbrev pub reg_strobe_dll_ctrl : Layout
reg_strobe_dll_ctrl =
    bits 28 31 "strobe_dll_ctrl_ref_update_int"
    ∷ bits 20 27 "strobe_dll_ctrl_slv_update_int"
    ∷ bits 9 15 "strobe_dll_ctrl_slv_override_val"
    ∷ bits 8 8 "strobe_dll_ctrl_slv_override"
    ∷ bits 7 7 "strobe_dll_ctrl_gate_update_1"
    ∷ bits 6 6 "strobe_dll_ctrl_gate_update_0"
    ∷ bits 3 5 "strobe_dll_ctrl_slv_dly_target"
    ∷ bits 2 2 "strobe_dll_ctrl_slv_force_upd"
    ∷ bits 1 1 "strobe_dll_ctrl_reset"
    ∷ bits 0 0 "strobe_dll_ctrl_enable"
    ∷ []

abbrev pub reg_strobe_dll_status : Layout
reg_strobe_dll_status =
    bits 9 15 "strobe_dll_sts_ref_sel"
    ∷ bits 2 8 "strobe_dll_sts_slv_sel"
    ∷ bits 1 1 "strobe_dll_sts_ref_lock"
    ∷ bits 0 0 "strobe_dll_sts_slv_lock"
    ∷ []

abbrev pub reg_vend_spec : Layout
reg_vend_spec =
    bits 31 31 "cmd_byte_en"
    ∷ bits 15 15 "crc_chk_dis"
    ∷ bits 14 14 "cken"
    ∷ bits 13 13 "peren"
    ∷ bits 12 12 "hcken"
    ∷ bits 11 11 "ipgen"
    ∷ bits 8 8 "frc_sdclk_on"
    ∷ bits 3 3 "ac12_we_chk_busy_en"
    ∷ bits 2 2 "conflict_check_en"
    ∷ bits 1 1 "vselect"
    ∷ bits 0 0 "ext_dma_en"
    ∷ []

abbrev pub reg_vend_spec2 : Layout
reg_vend_spec2 =
    bits 16 31 "fbclk_tap_sel"
    ∷ bits 15 15 "en_32k_clk"
    ∷ bits 12 12 "acmd23_argu2_en"
    ∷ bits 11 11 "hs400_rd_clk_stop_en"
    ∷ bits 10 10 "hw400_wr_clk_stop_en"
    ∷ bits 8 8 "en_busy_irq"
    ∷ bits 6 6 "tuning_cmd_en"
    ∷ bits 5 5 "tuning_1bit_en"
    ∷ bits 4 4 "tuning_8bit_en"
    ∷ bits 3 3 "card_int_d3_test"
    ∷ []

abbrev pub reg_tuning_ctrl : Layout
reg_tuning_ctrl =
    bits 24 24 "std_tuning_en"
    ∷ bits 20 22 "tuning_window"
    ∷ bits 16 18 "tuning_step"
    ∷ bits 8 15 "tuning_counter"
    ∷ bits 7 7 "disable_crc_on_tuning"
    ∷ bits 0 6 "tuning_start_tap"
    ∷ []

abbrev pub reg_host_version : Layout
reg_host_version = bits 24 31 "vend_vers" ∷ bits 16 23 "spec_vers" ∷ []
