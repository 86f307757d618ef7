-- ===== src/Mmc/Fields/Args.antt =====
-- server/src/mmc.h: the arguments of commands.
use emmc_driver.Base.{[], ◌∷◌}
use emmc_driver.Reg.{Layout, bits}

abbrev pub arg_cmd5_sleep_aware : Layout
arg_cmd5_sleep_aware = bits 15 15 "sleep_awake" ∷ []

abbrev pub arg_cmd6_switch : Layout
arg_cmd6_switch =
    bits 24 25 "access" ∷ bits 16 23 "index" ∷ bits 8 15 "value" ∷ bits 0 2 "cmdset" ∷ []

abbrev pub arg_cmd6_switch_func : Layout
arg_cmd6_switch_func =
    bits 31 31 "mode"
    ∷ bits 20 23 "grp6"
    ∷ bits 16 19 "grp5"
    ∷ bits 12 15 "grp4_power_limit"
    ∷ bits 8 11 "grp3_drive_strength"
    ∷ bits 4 7 "grp2_cmd_system"
    ∷ bits 0 3 "grp1_acc_mode"
    ∷ []

abbrev pub arg_cmd8_send_if_cond : Layout
arg_cmd8_send_if_cond =
    bits 0 7 "check_pattern"
    ∷ bits 8 11 "voltage_suppl"
    ∷ bits 12 12 "pcie_avail"
    ∷ bits 13 13 "pcie_12v_supp"
    ∷ []

abbrev pub arg_cmd23_set_block_count : Layout
arg_cmd23_set_block_count =
    bits 0 15 "blocks"
    ∷ bits 24 24 "forced_prg"
    ∷ bits 25 28 "context_id"
    ∷ bits 29 29 "tag_request"
    ∷ bits 30 30 "packed"
    ∷ bits 31 31 "reliable_write"
    ∷ []

abbrev pub arg_acmd6_sd_set_bus_width : Layout
arg_acmd6_sd_set_bus_width = bits 0 1 "bus_width" ∷ []

abbrev pub arg_acmd41_sd_send_op : Layout
arg_acmd41_sd_send_op =
    bits 15 23 "voltrange_sd"
    ∷ bits 15 15 "mv2700_2800"
    ∷ bits 16 16 "mv2800_2900"
    ∷ bits 17 17 "mv2900_3000"
    ∷ bits 18 18 "mv3000_3100"
    ∷ bits 19 19 "mv3100_3200"
    ∷ bits 20 20 "mv3200_3300"
    ∷ bits 21 21 "mv3300_3400"
    ∷ bits 22 22 "mv3400_3500"
    ∷ bits 23 23 "mv3500_3600"
    ∷ bits 24 24 "s18r"
    ∷ bits 28 28 "xpc"
    ∷ bits 30 30 "hcs"
    ∷ bits 31 31 "not_busy"
    ∷ []

abbrev pub arg_cmd52_io_rw_direct : Layout
arg_cmd52_io_rw_direct =
    bits 0 7 "write_data"
    ∷ bits 9 25 "address"
    ∷ bits 27 27 "read_after_write"
    ∷ bits 28 30 "function"
    ∷ bits 31 31 "write"
    ∷ []
