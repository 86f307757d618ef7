-- ===== src/Sdhci/Setup/Tests.antt =====
-- The theorems on set_clock_and_timing() at HS400 with enhanced strobe and at DDR50.
use emmc_driver.Base.{◌/◌, ◌≤◌, arith, true, false, ◌≡◌, done}
use emmc_driver.Mmc.{mmc_hs400, uhs_ddr50, width_8bit}
use emmc_driver.Clock.{cleared, clock_base_divider10}
use emmc_driver.Sdhci.Setup.Uhs.{Registers, set_timing_iproc, set_timing_iproc_lem}
use emmc_driver.Sdhci.Setup.{Usdhc, set_clock_and_timing}
use emmc_driver.Sdhci.Setup.Modes.{expected, set_clock_and_timing_lem}

abbrev stopped : Usdhc
stopped = record {
  frc_sdclk_on = false;
  sys = cleared;
  mix = record { ddr_en = false; hs400_mo = false; en_hs400_mo = false; auto_tune_en = true };
  strobe_dll = false;
  execute_tuning = false;
  smp_clk_sel = true;
  dtw = width_8bit;
  tuning_8bit_en = true;
  tuning_1bit_en = false;
  tuning_cmd_en = true;
  ddr_active = false;
}

set_clock_and_timing_lem_example :
    set_clock_and_timing (λ w. true) 396000000 200000000 mmc_hs400 true stopped
    ≡ (expected 396000000 200000000 mmc_hs400 true stopped, done tt)
set_clock_and_timing_lem_example =
    set_clock_and_timing_lem (λ w. true) 396000000 200000000 mmc_hs400 true stopped

abbrev off : Registers
off = record {
  hispd = false;
  voltage_18 = false;
  bus_power = true;
  uhsmode = 0;
  v18 = false;
  sys = cleared;
  sdcen = false;
  ddr_active = false;
}

set_timing_iproc_lem_example :
    let r = set_timing_iproc true 100000000 50000000 uhs_ddr50 off in
    (r.1 ≡ done tt)
    × (r.0.sdcen ≡ true)
    × (r.0.uhsmode ≡ 4)
    × (r.0.hispd ≡ true)
    × (100000000 / clock_base_divider10 r.0.sys ≤ 50000000)
set_timing_iproc_lem_example =
    set_timing_iproc_lem true 100000000 50000000 uhs_ddr50 off (omega arith) (omega arith)
      (omega arith)
