-- ===== src/Sdhci/Setup/Uhs.antt =====
-- set_clock_and_timing() and set_voltage() of server/src/drv_sdhci-impl.h for Iproc, where the
-- registers of the SDHCI specification are used. The registers hold what is written.
use emmc_driver.Base.{
  ℕ, ◌/◌, ◌≤◌, ◌<◌, ◌≡◌, refl, Bool, true, false, done, throws, eio, Method, ◌>>◌, ◌==◌, arith,
  if◌then◌else◌,
}
use emmc_driver.Mmc.{
  Timing, hs, uhs_sdr12, uhs_sdr25, uhs_sdr50, uhs_sdr104, uhs_ddr50, mmc_ddr52, mmc_hs200,
  mmc_hs400, Voltage, voltage_120, voltage_180, voltage_330,
}
use emmc_driver.Clock.{SysCtrl, cleared, set_clock_sdhci, clock_base_divider10}
use emmc_driver.Clock.Iproc.{set_clock_sdhci_lem}
use emmc_driver.Sdhci.Setup.{is_ddr}

-- `hispd`, `voltage_sel` and `bus_power` of Reg_host_ctrl, `uhsmode` and `v18` of Reg_host_ctrl2,
-- Reg_sys_ctrl with `sdcen`, and `_ddr_active`; `voltage_18` tells Voltage_18 from Voltage_33.
pub record Registers : Type 0 where
  pub hispd : Bool
  pub voltage_18 : Bool
  pub bus_power : Bool
  pub uhsmode : ℕ
  pub v18 : Bool
  pub sys : SysCtrl
  pub sdcen : Bool
  pub ddr_active : Bool

abbrev pub write_reg : (Registers → Registers) → Method Registers (Unit {0})
write_reg f s = (f s, done tt)

-- Util::poll(): whether the state is reached before the timeout
abbrev pub wait_for : Bool → Method Registers (Unit {0})
wait_for reached s = if reached then (s, done tt) else (s, throws eio)

abbrev pub is_hispd : Timing → Bool
is_hispd mmc_hs400 = true
is_hispd mmc_hs200 = true
is_hispd mmc_ddr52 = true
is_hispd uhs_ddr50 = true
is_hispd uhs_sdr104 = true
is_hispd uhs_sdr50 = true
is_hispd uhs_sdr25 = true
is_hispd hs = true
is_hispd t = false

abbrev pub uhs_mode : Timing → ℕ
uhs_mode mmc_hs200 = 3
uhs_mode uhs_sdr104 = 3
uhs_mode uhs_sdr12 = 0
uhs_mode uhs_sdr25 = 1
uhs_mode uhs_sdr50 = 2
uhs_mode uhs_ddr50 = 4
uhs_mode mmc_ddr52 = 4
uhs_mode mmc_hs400 = 5
uhs_mode t = 0

-- The branch of set_clock() for SDHCI.
unfoldable pub set_clock_iproc : Bool → ℕ → ℕ → Method Registers (Unit {0})
set_clock_iproc stable host freq = do
  write_reg (λ s. record s { sys = cleared; sdcen = false })
  if freq == 0
      then (λ s. (s, done tt))
      else write_reg (λ s. record s { sys = set_clock_sdhci host freq })
        >> (wait_for stable >> write_reg (λ s. record s { sdcen = true }))

-- clock_disable() and clock_enable() do nothing for SDHCI.
unfoldable pub set_timing_iproc : Bool → ℕ → ℕ → Timing → Method Registers (Unit {0})
set_timing_iproc stable host freq t = do
  write_reg (λ s. record s { ddr_active = is_ddr t })
  write_reg (λ s. record s { hispd = is_hispd t })
  write_reg (λ s. record s { uhsmode = uhs_mode t })
  set_clock_iproc stable host freq

abbrev pub switch_voltage : Bool → Bool → Method Registers (Unit {0})
switch_voltage stable low = do
  write_reg (λ s. record s { v18 = low })
  wait_for stable
  write_reg (λ s. record s { voltage_18 = low; bus_power = false })
  write_reg (λ s. record s { bus_power = true })

unfoldable pub set_voltage_iproc : Bool → Voltage → Method Registers (Unit {0})
set_voltage_iproc stable voltage_120 = λ s. (s, done tt)
set_voltage_iproc stable voltage_180 = switch_voltage stable true
set_voltage_iproc stable voltage_330 = switch_voltage stable false

positive : (freq : ℕ) → 0 < freq → (freq == 0) ≡ false
positive freq p = ground (arith, p)

-- On the controllers Iproc and Bcm2711: if the clock becomes stable, `set_clock_and_timing()` leaves the card with a clock that is not
-- above the frequency, where that is below the base clock and some divisor of the controller reaches
-- it, and with the mode of the timing; if it does not, EIO is thrown and the card has no clock.
pub set_timing_iproc_lem :
    (stable : Bool) (host freq : ℕ) (t : Timing) (s : Registers)
    → 0 < freq
    → freq < host
    → host / 2046 ≤ freq
    → let r = set_timing_iproc stable host freq t s in
      (if stable then r.1 ≡ done tt else r.1 ≡ throws eio)
      × (r.0.sdcen ≡ stable)
      × (r.0.uhsmode ≡ uhs_mode t)
      × (r.0.hispd ≡ is_hispd t)
      × (host / clock_base_divider10 r.0.sys ≤ freq)
unfolding set_timing_iproc set_clock_iproc
set_timing_iproc_lem true host freq t s p h k =
    rw (positive freq p) (refl, refl, refl, refl, (set_clock_sdhci_lem host freq h).2 k)
set_timing_iproc_lem false host freq t s p h k =
    rw (positive freq p) (refl, refl, refl, refl, (set_clock_sdhci_lem host freq h).2 k)
