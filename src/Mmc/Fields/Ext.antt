-- ===== src/Mmc/Fields/Ext.antt =====
-- server/src/mmc.h: operating conditions, responses, and parts of the register EXT_CSD.
use emmc_driver.Base.{[], ◌∷◌}
use emmc_driver.Reg.{Layout, bits}

abbrev pub reg_ocr : Layout
reg_ocr =
    bits 7 23 "voltrange_mmc"
    ∷ bits 15 23 "voltrange_sd"
    ∷ bits 7 7 "mv1700_1950"
    ∷ bits 8 8 "mv2000_2100"
    ∷ bits 9 9 "mv2100_2200"
    ∷ bits 10 10 "mv2200_2300"
    ∷ bits 11 11 "mv2300_2400"
    ∷ bits 12 12 "mv2400_2500"
    ∷ bits 13 13 "mv2500_2600"
    ∷ bits 14 14 "mv2600_2700"
    ∷ bits 15 15 "mv2700_2800"
    ∷ bits 16 16 "mv2800_2900"
    ∷ bits 17 17 "mv2900_3000"
    ∷ bits 18 18 "mv3000_3100"
    ∷ bits 19 19 "mv3100_3200"
    ∷ bits 20 20 "mv3200_3300"
    ∷ bits 21 21 "mv3300_3400"
    ∷ bits 22 22 "mv3400_3500"
    ∷ bits 23 23 "mv3500_3600"
    ∷ bits 24 24 "s18a"
    ∷ bits 27 27 "co2t"
    ∷ bits 29 29 "uhsii"
    ∷ bits 30 30 "ccs"
    ∷ bits 31 31 "not_busy"
    ∷ []

abbrev pub rsp_r4 : Layout
rsp_r4 =
    bits 31 31 "card_ready"
    ∷ bits 28 30 "num_io"
    ∷ bits 27 27 "mem_pres"
    ∷ bits 24 24 "s18a"
    ∷ bits 0 23 "io_ocr"
    ∷ []

abbrev pub rsp_r7 : Layout
rsp_r7 = bits 8 11 "voltage_accepted" ∷ bits 0 7 "echo_pattern" ∷ []

abbrev pub ec32_flush_cache : Layout
ec32_flush_cache = bits 0 0 "flush" ∷ bits 1 1 "barrier" ∷ []

abbrev pub ec33_cache_ctrl : Layout
ec33_cache_ctrl = bits 0 0 "cache_en" ∷ []

abbrev pub ec34_power_off_notification : Layout
ec34_power_off_notification = bits 0 7 "notify" ∷ []

abbrev pub ec161_hpi_mgmt : Layout
ec161_hpi_mgmt = bits 0 0 "hpi_en" ∷ []

abbrev pub ec163_bkops_en : Layout
ec163_bkops_en = bits 1 1 "auto_en" ∷ bits 0 0 "manual_en" ∷ []

abbrev pub ec175_erase_group_def : Layout
ec175_erase_group_def = bits 0 0 "enable" ∷ []

abbrev pub ec179_partition_config : Layout
ec179_partition_config =
    bits 6 6 "boot_ack" ∷ bits 3 5 "boot_part_enable" ∷ bits 0 2 "partition_access" ∷ []

abbrev pub ec183_bus_width : Layout
ec183_bus_width = bits 7 7 "enhanced_strobe" ∷ bits 0 3 "bus_mode_select" ∷ []

abbrev pub ec185_hs_timing : Layout
ec185_hs_timing =
    bits 4 7 "driver_strength" ∷ bits 0 3 "timing_interface" ∷ bits 4 7 "selected_strength" ∷ []

abbrev pub ec196_device_type : Layout
ec196_device_type =
    bits 7 7 "hs400_ddr_12"
    ∷ bits 6 6 "hs400_ddr_18"
    ∷ bits 5 5 "hs200_sdr_12"
    ∷ bits 4 4 "hs200_sdr_18"
    ∷ bits 3 3 "hs52_ddr_12"
    ∷ bits 2 2 "hs52_ddr_18"
    ∷ bits 1 1 "hs52"
    ∷ bits 0 0 "hs26"
    ∷ []

abbrev pub ec197_driver_strength : Layout
ec197_driver_strength =
    bits 4 4 "type4"
    ∷ bits 3 3 "type3"
    ∷ bits 2 2 "type2"
    ∷ bits 1 1 "type1"
    ∷ bits 0 0 "type0"
    ∷ []

abbrev pub ec308_cmdq_support : Layout
ec308_cmdq_support = bits 0 0 "cmdq_support" ∷ []
