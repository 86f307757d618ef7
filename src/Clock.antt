-- ===== src/Clock.antt =====
-- server/src/drv_sdhci-impl.h, set_clock(), and server/src/drv_sdhci.h, struct Reg_sys_ctrl: how the
-- divisors of the SD clock are chosen, and what is read back from the register.
pub mod Iproc
pub mod Usdhc
use emmc_driver.Base.{
  ℕ, zero, suc, ◌+◌, ◌-◌, ◌*◌, ◌/◌, ◌%◌, ◌^◌, Bool, true, false, ◌&&◌, ltb, leb, ◌==◌,
  if◌then◌else◌,
}

-- The divisor fields of Reg_sys_ctrl, `clk_freq8` and `clk_freq_ms2` of SDHCI, `sdclkfs` and `dvs` of
-- uSDHC.
pub record SysCtrl : Type 0 where
  pub clk_freq8 : ℕ
  pub clk_freq_ms2 : ℕ
  pub sdclkfs : ℕ
  pub dvs : ℕ

abbrev pub cleared : SysCtrl
cleared = record { clk_freq8 = 0; clk_freq_ms2 = 0; sdclkfs = 0; dvs = 0 }

unfoldable pub clock_base_divider10 : SysCtrl → ℕ
clock_base_divider10 sc = (sc.clk_freq8 + sc.clk_freq_ms2 * 2 ^ 8) * 2

unfoldable pub clock_divider_sdr : SysCtrl → ℕ
clock_divider_sdr sc = (if sc.sdclkfs == 0 then 1 else sc.sdclkfs * 2) * (sc.dvs + 1)

unfoldable pub clock_divider_ddr : SysCtrl → ℕ
clock_divider_ddr sc = (if sc.sdclkfs == 0 then 2 else sc.sdclkfs * 4) * (sc.dvs + 1)

-- Iproc, Bcm2711: the loop over even divisors, from `div` on; 1022 rounds lead from 2 to 2046.
unfoldable pub find_div : ℕ → ℕ → ℕ → ℕ → ℕ
find_div zero host freq div = div
find_div (suc fuel) host freq div =
    let rest = find_div fuel host freq (div + 2) in
    if ltb div 2046 then if leb (host / div) freq then div else rest else div

unfoldable pub base_div : ℕ → ℕ → ℕ
base_div host freq = if leb host freq then 1 else find_div 1022 host freq 2

-- `freq` is not 0.
unfoldable pub set_clock_sdhci : ℕ → ℕ → SysCtrl
set_clock_sdhci host freq = record cleared {
  clk_freq8 = (base_div host freq / 2) % 2 ^ 8;
  clk_freq_ms2 = (base_div host freq / 2 / 2 ^ 8) % 2 ^ 2;
}

-- uSDHC: the two loops; `pre_div` doubles at most 8 times, `div` grows at most 15 times.
unfoldable pub find_pre_div : ℕ → ℕ → ℕ → ℕ → ℕ → ℕ
find_pre_div zero host freq ddr pre_div = pre_div
find_pre_div (suc fuel) host freq ddr pre_div =
    let rest = find_pre_div fuel host freq ddr (pre_div * 2) in
    if ltb freq (host / (16 * pre_div * ddr)) && ltb pre_div 256 then rest else pre_div

unfoldable pub find_dvs : ℕ → ℕ → ℕ → ℕ → ℕ → ℕ
find_dvs zero host freq factor div = div
find_dvs (suc fuel) host freq factor div =
    let rest = find_dvs fuel host freq factor (div + 1) in
    if ltb freq (host / (div * factor)) && ltb div 16 then rest else div

abbrev pub ddr_pre_div : Bool → ℕ
ddr_pre_div ddr_active = if ddr_active then 2 else 1

unfoldable pub set_clock_usdhc : ℕ → ℕ → Bool → SysCtrl
set_clock_usdhc host freq ddr_active =
    let ddr = ddr_pre_div ddr_active in
    let pre_div = find_pre_div 8 host freq ddr 1 in
    let div = find_dvs 15 host freq (pre_div * ddr) 1 in
    record cleared { sdclkfs = (pre_div / 2) % 2 ^ 8; dvs = (div - 1) % 2 ^ 4 }
