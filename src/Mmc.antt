-- ===== src/Mmc.antt =====
-- server/src/mmc.h: MMC command values, enums and the numbers behind them.
-- A command value holds the command index in bits 0..5, the type in bits 6..7 and the features of
-- the response and of the transfer above.
pub mod Csd
pub mod Sd
pub mod Fields
use emmc_driver.Base.{ℕ, ◌+◌, ◌*◌, ◌/◌, ◌%◌, ◌^◌, Bool, ◌==◌}

-- bit `k` of a word
abbrev pub test_bit : ℕ → ℕ → Bool
test_bit raw k = (raw / 2 ^ k) % 2 == 1

-- command types
abbrev pub bc : ℕ
bc = 0

abbrev pub bcr : ℕ
bcr = 1 * 2 ^ 6

abbrev pub ac : ℕ
ac = 2 * 2 ^ 6

abbrev pub adtc : ℕ
adtc = 3 * 2 ^ 6

-- command features
abbrev pub rsp_present : ℕ
rsp_present = 2 ^ 8

abbrev pub rsp_check_crc : ℕ
rsp_check_crc = 2 ^ 9

abbrev pub rsp_136_bits : ℕ
rsp_136_bits = 2 ^ 10

abbrev pub rsp_check_busy : ℕ
rsp_check_busy = 2 ^ 11

abbrev pub rsp_has_opcode : ℕ
rsp_has_opcode = 2 ^ 12

abbrev pub dir_read : ℕ
dir_read = 2 ^ 13

-- response types; the features are different bits, so `|` is a sum
abbrev pub resp_r1 : ℕ
resp_r1 = rsp_present + rsp_check_crc + rsp_has_opcode

abbrev pub resp_r1b : ℕ
resp_r1b = rsp_present + rsp_check_crc + rsp_has_opcode + rsp_check_busy

abbrev pub resp_r2 : ℕ
resp_r2 = rsp_present + rsp_136_bits + rsp_check_crc

abbrev pub resp_r3 : ℕ
resp_r3 = rsp_present

abbrev pub resp_r5 : ℕ
resp_r5 = rsp_present + rsp_check_crc + rsp_has_opcode

abbrev pub resp_r6 : ℕ
resp_r6 = rsp_present + rsp_check_crc + rsp_has_opcode

abbrev pub resp_r7 : ℕ
resp_r7 = rsp_present + rsp_check_crc + rsp_has_opcode

-- the commands that the modelled code sends or tests
abbrev pub cmd6_switch : ℕ
cmd6_switch = 6 + ac + resp_r1b + dir_read

abbrev pub cmd8_send_ext_csd : ℕ
cmd8_send_ext_csd = 8 + adtc + resp_r1 + dir_read

abbrev pub cmd12_stop_transmission_rd : ℕ
cmd12_stop_transmission_rd = 12 + ac + resp_r1

abbrev pub cmd12_stop_transmission_wr : ℕ
cmd12_stop_transmission_wr = 12 + ac + resp_r1b

abbrev pub cmd13_send_status : ℕ
cmd13_send_status = 13 + ac + resp_r1 + dir_read

abbrev pub cmd17_read_single_block : ℕ
cmd17_read_single_block = 17 + adtc + resp_r1 + dir_read

abbrev pub cmd18_read_multiple_block : ℕ
cmd18_read_multiple_block = 18 + adtc + resp_r1 + dir_read

abbrev pub cmd19_send_tuning_block : ℕ
cmd19_send_tuning_block = 19 + adtc + resp_r1 + dir_read

abbrev pub cmd21_send_tuning_block : ℕ
cmd21_send_tuning_block = 21 + adtc + resp_r1 + dir_read

abbrev pub cmd23_set_block_count : ℕ
cmd23_set_block_count = 23 + ac + resp_r1

abbrev pub cmd24_write_block : ℕ
cmd24_write_block = 24 + adtc + resp_r1

abbrev pub cmd25_write_multiple_block : ℕ
cmd25_write_multiple_block = 25 + adtc + resp_r1

abbrev pub cmd55_app_cmd : ℕ
cmd55_app_cmd = 55 + ac + resp_r1

abbrev pub cmd0_go_idle_state : ℕ
cmd0_go_idle_state = 0 + bc

abbrev pub cmd1_send_op_cond : ℕ
cmd1_send_op_cond = 1 + bcr + resp_r3 + dir_read

abbrev pub cmd2_all_send_cid : ℕ
cmd2_all_send_cid = 2 + bcr + resp_r2

abbrev pub cmd3_send_relative_addr : ℕ
cmd3_send_relative_addr = 3 + ac + resp_r6

abbrev pub cmd3_set_relative_addr : ℕ
cmd3_set_relative_addr = 3 + ac + resp_r1

abbrev pub cmd16_set_blocklen : ℕ
cmd16_set_blocklen = 16 + ac + resp_r1

abbrev pub cmd6_switch_func : ℕ
cmd6_switch_func = 6 + adtc + resp_r1 + dir_read

abbrev pub cmd7_select_card : ℕ
cmd7_select_card = 7 + ac + resp_r1

abbrev pub cmd8_send_if_cond : ℕ
cmd8_send_if_cond = 8 + bcr + resp_r7

abbrev pub cmd9_send_csd : ℕ
cmd9_send_csd = 9 + ac + resp_r2

abbrev pub cmd11_voltage_switch : ℕ
cmd11_voltage_switch = 11 + ac + resp_r1

abbrev pub cmd52_io_rw_direct : ℕ
cmd52_io_rw_direct = 52 + ac + resp_r5

abbrev pub acmd6_set_bus_width : ℕ
acmd6_set_bus_width = 6 + ac + resp_r1

abbrev pub acmd13_sd_status : ℕ
acmd13_sd_status = 13 + adtc + resp_r1 + dir_read

abbrev pub acmd41_sd_app_op_cond : ℕ
acmd41_sd_app_op_cond = 41 + bcr + resp_r3

abbrev pub acmd51_send_scr : ℕ
acmd51_send_scr = 51 + adtc + resp_r1 + dir_read

pub data BusWidth : Type 0 where
  width_1bit width_4bit width_8bit : BusWidth

pub data Timing : Type 0 where
  legacy hs uhs_sdr12 uhs_sdr25 uhs_sdr50 uhs_sdr104 uhs_ddr50 mmc_ddr52 mmc_hs200 mmc_hs400 :
      Timing

pub data Voltage : Type 0 where
  voltage_120 voltage_180 voltage_330 : Voltage

pub data PowerLimit : Type 0 where
  power_072w power_144w power_216w power_288w power_180w : PowerLimit
