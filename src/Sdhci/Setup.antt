-- ===== src/Sdhci/Setup.antt =====
-- Clock, timing and tuning of the controller in server/src/drv_sdhci-impl.h, for uSDHC:
-- set_clock_and_timing() with clock_disable(), clock_enable(), set_strobe_dll() and reset_tuning(),
-- enable_auto_tuning() and tuning_finished(). The registers are a state, and hold what is written.
pub mod Modes
pub mod Caps
pub mod Uhs
mod Tests
use emmc_driver.Base.{
  ℕ, Bool, true, false, Option, none, some, Outcome, done, throws, eio, Method, ◌>>◌, ◌>>=◌, ◌==◌,
  if◌then◌else◌,
}
use emmc_driver.Mmc.{
  Timing, legacy, hs, uhs_ddr50, mmc_ddr52, mmc_hs400, BusWidth, width_4bit, width_8bit,
}
use emmc_driver.Clock.{SysCtrl, set_clock_usdhc}

-- The bits of Reg_mix_ctrl that select a mode.
pub record MixMode : Type 0 where
  pub ddr_en : Bool
  pub hs400_mo : Bool
  pub en_hs400_mo : Bool
  pub auto_tune_en : Bool

-- `frc_sdclk_on` of Reg_vend_spec, Reg_sys_ctrl, Reg_mix_ctrl, whether Reg_strobe_dll_ctrl enables the
-- line, `execute_tuning` and `smp_clk_sel` of Reg_autocmd12_err_status, the width of Reg_prot_ctrl,
-- the bits for tuning of Reg_vend_spec2, and `_ddr_active`.
pub record Usdhc : Type 0 where
  pub frc_sdclk_on : Bool
  pub sys : SysCtrl
  pub mix : MixMode
  pub strobe_dll : Bool
  pub execute_tuning : Bool
  pub smp_clk_sel : Bool
  pub dtw : BusWidth
  pub tuning_8bit_en : Bool
  pub tuning_1bit_en : Bool
  pub tuning_cmd_en : Bool
  pub ddr_active : Bool

-- What Util::poll() waits for; it throws EIO on a timeout.
pub data Wait : Type 0 where
  gate_off clock_stable strobe_locked tuning_disabled : Wait

unfoldable pub poll : (Wait → Bool) → Wait → Method Usdhc (Unit {0})
poll ready w s = if ready w then (s, done tt) else (s, throws eio)

abbrev pub put : (Usdhc → Usdhc) → Method Usdhc (Unit {0})
put f s = (f s, done tt)

unfoldable pub clock_disable : (Wait → Bool) → Method Usdhc (Unit {0})
clock_disable ready = do put (λ s. record s { frc_sdclk_on = false }); poll ready gate_off

unfoldable pub clock_enable : (Wait → Bool) → Method Usdhc (Unit {0})
clock_enable ready = do put (λ s. record s { frc_sdclk_on = true }); poll ready clock_stable

unfoldable pub set_strobe_dll : (Wait → Bool) → Method Usdhc (Unit {0})
set_strobe_dll ready = do put (λ s. record s { strobe_dll = true }); poll ready strobe_locked

-- `brr` of the interrupt status is acknowledged besides.
unfoldable pub reset_tuning : (Wait → Bool) → Method Usdhc (Unit {0})
reset_tuning ready = do
  put (λ s. record s {
    mix = record (s.mix) { auto_tune_en = false };
    execute_tuning = false;
    smp_clk_sel = false;
  })
  poll ready tuning_disabled

abbrev pub is_ddr : Timing → Bool
is_ddr mmc_hs400 = true
is_ddr uhs_ddr50 = true
is_ddr mmc_ddr52 = true
is_ddr t = false

abbrev pub write_mix : MixMode → Method Usdhc (Unit {0})
write_mix mc = put (λ s. record s { mix = mc })

-- The switch over timings; `mc` was read before it.
unfoldable pub select_timing : (Wait → Bool) → Timing → Bool → MixMode → Method Usdhc (Unit {0})
select_timing ready uhs_ddr50 strobe mc = write_mix (record mc { ddr_en = true })
select_timing ready mmc_ddr52 strobe mc = write_mix (record mc { ddr_en = true })
select_timing ready mmc_hs400 strobe mc = do
  write_mix (record mc { ddr_en = true; hs400_mo = true })
  set_strobe_dll ready
  write_mix (record mc {
    ddr_en = true;
    hs400_mo = true;
    en_hs400_mo = if strobe then true else mc.en_hs400_mo;
  })
select_timing ready legacy strobe mc = do reset_tuning ready; write_mix mc
select_timing ready t strobe mc = write_mix mc

abbrev pub clear_mode : MixMode → MixMode
clear_mode mc = record mc { ddr_en = false; hs400_mo = false; en_hs400_mo = false }

-- what is done for a clock that is not stopped, after clock_disable()
unfoldable pub start_clock : (Wait → Bool) → ℕ → ℕ → Timing → Bool → Method Usdhc (Unit {0})
start_clock ready host freq t strobe s =
    (do
      put (λ s. record s { ddr_active = is_ddr t; sys = set_clock_usdhc host freq (is_ddr t) })
      put (λ s. record s { strobe_dll = false })
      select_timing ready t strobe (clear_mode s.mix)
      clock_enable ready)
      s

-- `host` is `_host_clock`.
unfoldable pub set_clock_and_timing :
    (Wait → Bool) → ℕ → ℕ → Timing → Bool → Method Usdhc (Unit {0})
set_clock_and_timing ready host freq t strobe = do
  clock_disable ready
  if freq == 0 then (λ s. (s, done tt)) else start_clock ready host freq t strobe

abbrev pub set_tuning_width : BusWidth → Usdhc → Usdhc
set_tuning_width width_8bit s = record s { tuning_8bit_en = true; tuning_1bit_en = false }
set_tuning_width width_4bit s = record s { tuning_8bit_en = false; tuning_1bit_en = false }
set_tuning_width w s = record s { tuning_8bit_en = false; tuning_1bit_en = true }

unfoldable pub enable_auto_tuning : Usdhc → Usdhc
enable_auto_tuning s = record (set_tuning_width s.dtw s) {
  tuning_cmd_en = true;
  mix = record (s.mix) { auto_tune_en = true };
}

-- `*success` where tuning has finished
unfoldable pub tuning_finished : Usdhc → Option Bool
tuning_finished s = if s.execute_tuning then none else some s.smp_clk_sel
