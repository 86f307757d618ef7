-- ===== src/Sdhci/Setup/Caps.antt =====
-- What server/src/drv_sdhci.h and server/src/drv_sdhci-impl.h say of a controller by its capability
-- registers: supp_uhs_timings(), needs_tuning_sdr50(), supp_power_limit(), supported_voltage() and
-- xpc_supported(). Together they are the controller that powering up asks.
use emmc_driver.Base.{ℕ, ◌+◌, ◌*◌, ◌^◌, ◌≡◌, Bool, true, false, leb, arith, if◌then◌else◌}
use emmc_driver.Mmc.{
  test_bit, Timing, uhs_sdr12, uhs_sdr25, uhs_sdr50, uhs_sdr104, uhs_ddr50, Voltage, voltage_180,
  voltage_330, PowerLimit, power_144w, power_180w, power_216w, power_288w,
}
use emmc_driver.Sdhci.{SdhciType, iproc, bcm2711, is_usdhc}
use emmc_driver.SdCard.{Host}

-- Reg_host_ctrl_cap of uSDHC, Reg_cap1_sdhci, Reg_cap2_sdhci and Reg_max_current of the others
pub record CapRegs : Type 0 where
  pub host_ctrl_cap : ℕ
  pub cap1 : ℕ
  pub cap2 : ℕ
  pub max_current_18v_vdd1 : ℕ
  pub max_current_33v_vdd1 : ℕ

-- the register whose bits 0 to 2 are `sdr50_support`, `sdr104_support` and `ddr50_support`, and whose
-- bit 13 asks for tuning of SDR50
abbrev pub mode_caps : SdhciType → CapRegs → ℕ
mode_caps type r = if is_usdhc type then r.host_ctrl_cap else r.cap2

-- for a single timing
unfoldable pub supp_uhs_timings : SdhciType → CapRegs → Timing → Bool
supp_uhs_timings type r uhs_sdr12 = true
supp_uhs_timings type r uhs_sdr25 = true
supp_uhs_timings type r uhs_sdr50 = test_bit (mode_caps type r) 0
supp_uhs_timings type r uhs_sdr104 = test_bit (mode_caps type r) 1
supp_uhs_timings type r uhs_ddr50 = test_bit (mode_caps type r) 2
supp_uhs_timings type r t = false

abbrev pub needs_tuning_sdr50 : SdhciType → CapRegs → Bool
needs_tuning_sdr50 type r = test_bit (mode_caps type r) 13

abbrev pub supp_power_limit : PowerLimit → Bool
supp_power_limit power_180w = false
supp_power_limit p = true

-- `vs33` is bit 24 of Reg_cap1_sdhci, `vs30` bit 25.
abbrev pub window_of : Bool → Bool → ℕ
window_of vs33 vs30 = (if vs33 then 2 ^ 20 + 2 ^ 21 else 0) + (if vs30 then 2 ^ 17 + 2 ^ 18 else 0)

abbrev pub is_sdhci : SdhciType → Bool
is_sdhci iproc = true
is_sdhci bcm2711 = true
is_sdhci t = false

unfoldable pub supported_voltage : SdhciType → CapRegs → ℕ
supported_voltage type r =
    if is_sdhci type
    then window_of (test_bit r.cap1 24) (test_bit r.cap1 25)
    else window_of true false

-- in mA
abbrev pub max_current : ℕ → ℕ
max_current val = val * 4

unfoldable pub xpc_supported : SdhciType → CapRegs → Voltage → Bool
xpc_supported type r v =
    if is_sdhci type
    then elim v [
      | voltage_180 ↦ leb 300 (max_current r.max_current_18v_vdd1)
      | voltage_330 ↦ leb 164 (max_current r.max_current_33v_vdd1)
      | _ ↦ false
    ]
    else true

unfoldable pub sdhci_host : SdhciType → CapRegs → Host
sdhci_host type r = record {
  ocr = supported_voltage type r;
  supp_uhs = true;
  supp = record {
    sdr12 = supp_uhs_timings type r uhs_sdr12;
    sdr25 = supp_uhs_timings type r uhs_sdr25;
    sdr50 = supp_uhs_timings type r uhs_sdr50;
    sdr104 = supp_uhs_timings type r uhs_sdr104;
    ddr50 = supp_uhs_timings type r uhs_ddr50;
  };
  xpc_180 = xpc_supported type r voltage_180;
  xpc_330 = xpc_supported type r voltage_330;
  power_144w = supp_power_limit power_144w;
  power_216w = supp_power_limit power_216w;
  power_288w = supp_power_limit power_288w;
  power_180w = supp_power_limit power_180w;
  needs_tuning_sdr50 = needs_tuning_sdr50 type r;
}

-- Extended power control is announced just where the controller gives the 540 mW that it stands for:
-- the product of the voltage and the current of the register, in units of 0.1 mW, is 5400 or more.
pub xpc_supported_lem :
    (type : SdhciType) (r : CapRegs)
    → is_sdhci type ≡ true
    → (xpc_supported type r voltage_180 ≡ leb 5400 (18 * max_current r.max_current_18v_vdd1))
      × (xpc_supported type r voltage_330 ≡ leb 5400 (33 * max_current r.max_current_33v_vdd1))
unfolding xpc_supported
xpc_supported_lem type r h = rw (h) (ground arith, ground arith)
