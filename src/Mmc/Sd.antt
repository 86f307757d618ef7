-- ===== src/Mmc/Sd.antt =====
-- server/src/mmc.h: the registers of SD cards that powering up reads, SCR (8 bytes), SD_STATUS and
-- the status of the switch function (64 bytes each). The constructors reverse the bytes, so that a
-- register is the number that its bytes write with the highest first.

use emmc_driver.Base.{ℕ, ◌+◌, ◌*◌, ◌/◌, ◌%◌, ◌^◌, Bool, List, [], ◌∷◌, ltb, ◌==◌, if◌then◌else◌}
use emmc_driver.Mmc.{test_bit}

be_from : ℕ → List ℕ → ℕ
be_from acc [] = acc
be_from acc (b ∷ bs) = be_from (acc * 2 ^ 8 + b % 2 ^ 8) bs

unfoldable pub be_bytes : List ℕ → ℕ
unfolding be_from
be_bytes bs = be_from 0 bs

-- the bits `lo` to `lo + width - 1`
abbrev pub field : ℕ → ℕ → ℕ → ℕ
field raw lo width = (raw / 2 ^ lo) % 2 ^ width

pub record RegScr : Type 0 where
  pub sd_spec : ℕ
  pub sd_spec3 : ℕ
  pub sd_spec4 : ℕ
  pub sd_specx : ℕ
  pub sd_bus_width_4 : Bool
  pub cmd23_support : Bool

unfoldable pub reg_scr : List ℕ → RegScr
unfolding be_bytes
reg_scr bytes = record {
  sd_spec = field (be_bytes bytes) 56 4;
  sd_spec3 = field (be_bytes bytes) 47 1;
  sd_spec4 = field (be_bytes bytes) 42 1;
  sd_specx = field (be_bytes bytes) 38 4;
  sd_bus_width_4 = test_bit (be_bytes bytes) 50;
  cmd23_support = test_bit (be_bytes bytes) 33;
}

-- Reg_scr::sd_spec_vers(); the fields stand in different digits of `vers`.
unfoldable pub sd_spec_vers : RegScr → ℕ
sd_spec_vers r =
    if vers == 0x0000
    then 100
    else if vers == 0x1000
    then 110
    else if vers == 0x2000
    then 200
    else if vers == 0x2100
    then 300
    else if vers == 0x2110
    then 400
    else if vers == 0x2101
    then 500
    else if vers == 0x2111
    then 500
    else if vers == 0x2102
    then 600
    else if vers == 0x2112
    then 600
    else 0
  where
    vers : ℕ
    vers = r.sd_spec * 2 ^ 12 + r.sd_spec3 * 2 ^ 8 + r.sd_spec4 * 2 ^ 4 + r.sd_specx

-- The switch above 10 of both functions below.
abbrev pub au_size_switch : ℕ → ℕ
au_size_switch au_size =
    if au_size == 0xb
    then 12 * 2 ^ 20
    else if au_size == 0xc
    then 16 * 2 ^ 20
    else if au_size == 0xd
    then 24 * 2 ^ 20
    else if au_size == 0xe
    then 32 * 2 ^ 20
    else 64 * 2 ^ 20

-- Reg_ssr::au_size_val()
unfoldable pub au_size_val : ℕ → ℕ
au_size_val au_size =
    if au_size == 0
    then 0
    else if ltb au_size 0xb
    then 2 ^ (1 + au_size)
    else au_size_switch au_size

-- Reg_ssr::uhs_au_size_val(), which reads `au_size` and not `uhs_au_size`
unfoldable pub uhs_au_size_val : ℕ → ℕ → ℕ
uhs_au_size_val au_size uhs_au_size =
    if ltb au_size 0x7
    then 0
    else if ltb au_size 0xb
    then 2 ^ (1 + au_size)
    else au_size_switch au_size

-- Reg_switch_func
pub record SwitchFunc : Type 0 where
  pub power_limit_144w : Bool
  pub power_limit_216w : Bool
  pub power_limit_288w : Bool
  pub power_limit_180w : Bool
  pub acc_mode_sdr12 : Bool
  pub acc_mode_sdr25 : Bool
  pub acc_mode_sdr50 : Bool
  pub acc_mode_sdr104 : Bool
  pub acc_mode_ddr50 : Bool
  pub fun_sel_grp1 : ℕ
  pub fun_sel_grp4 : ℕ

unfoldable pub reg_switch_func : List ℕ → SwitchFunc
unfolding be_bytes
reg_switch_func bytes = record {
  power_limit_144w = test_bit (be_bytes bytes) 449;
  power_limit_216w = test_bit (be_bytes bytes) 450;
  power_limit_288w = test_bit (be_bytes bytes) 451;
  power_limit_180w = test_bit (be_bytes bytes) 452;
  acc_mode_sdr12 = test_bit (be_bytes bytes) 400;
  acc_mode_sdr25 = test_bit (be_bytes bytes) 401;
  acc_mode_sdr50 = test_bit (be_bytes bytes) 402;
  acc_mode_sdr104 = test_bit (be_bytes bytes) 403;
  acc_mode_ddr50 = test_bit (be_bytes bytes) 404;
  fun_sel_grp1 = field (be_bytes bytes) 376 4;
  fun_sel_grp4 = field (be_bytes bytes) 388 4;
}
