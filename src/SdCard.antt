-- ===== src/SdCard.antt =====
-- Device::power_up_sd() of server/src/device-impl.h up to the choice of a mode: operating
-- conditions, the switch to 1.8 V, and the identification of the card.
pub mod Select
pub mod Order
mod Tests
pub mod Search
pub mod Stale
pub mod Refuse
use emmc_driver.Base.{
  ℕ, zero, suc, ◌+◌, ◌*◌, ◌/◌, ◌%◌, ◌^◌, Bool, true, false, not, ◌&&◌, List, Option, Outcome, done,
  throws, eio, einval, Method, ◌>>◌, ◌>>=◌, ltb, if◌then◌else◌,
}
use emmc_driver.Mmc.{
  test_bit, width_1bit, legacy, uhs_sdr12, voltage_180, cmd0_go_idle_state, cmd2_all_send_cid,
  cmd3_send_relative_addr, cmd7_select_card, cmd8_send_if_cond, cmd9_send_csd, cmd11_voltage_switch,
  acmd13_sd_status, acmd41_sd_app_op_cond, acmd51_send_scr,
}
use emmc_driver.Mmc.Csd.{RegCsd, device_size}
use emmc_driver.Mmc.Sd.{RegScr, reg_scr, sd_spec_vers, field}
use emmc_driver.Cmd
use emmc_driver.Cmd.{Cmd}
use emmc_driver.Session.{
  SdModes, Env, Session, set_bus_width, set_clock_and_timing, set_voltage, delay, pure, fail, act,
  set_up, with_cmd, get, cmd_exec, exec_arg, is_failed, check_error, mmc_status, rca_arg,
}
use emmc_driver.Session.Switch.{mmc_app_cmd, adapt_ocr}

-- What the methods of the driver say of the controller: supported_voltage(), supp_uhs_timings() for
-- all modes together and for each, xpc_supported(), supp_power_limit(), needs_tuning_sdr50().
pub record Host : Type 0 where
  pub ocr : ℕ
  pub supp_uhs : Bool
  pub supp : SdModes
  pub xpc_180 : Bool
  pub xpc_330 : Bool
  pub power_144w : Bool
  pub power_216w : Bool
  pub power_288w : Bool
  pub power_180w : Bool
  pub needs_tuning_sdr50 : Bool

abbrev pub khz : ℕ
khz = 1000

-- `cmd->init(cmd_val); cmd_exec(cmd);`
unfoldable pub exec_init : Env → ℕ → Method Session (Unit {0})
exec_init env cmd_val = do with_cmd (λ c. Cmd.init c cmd_val); cmd_exec env

-- The argument of ACMD41: `s18r` in bit 24, `xpc` in bit 28.
abbrev pub acmd41_arg : Host → ℕ → ℕ
acmd41_arg host resp =
    adapt_ocr resp host.ocr
    + (if host.supp_uhs then 2 ^ 24 else 0)
    + (if (if host.supp_uhs then host.xpc_180 else host.xpc_330) then 2 ^ 28 else 0)

-- bit `k` of `cmd->resp[0]`
abbrev pub resp_bit : ℕ → Method Session Bool
resp_bit k = get (λ s. test_bit s.cmd.resp0 k)

unfoldable pub acmd41_round : Env → ℕ → Method Session Bool
acmd41_round env arg = do mmc_app_cmd env acmd41_sd_app_op_cond arg 0; check_error; resp_bit 31

-- the loop that waits until the card is not busy, for as many rounds as are left
unfoldable pub acmd41_loop : ℕ → Env → ℕ → Method Session (Unit {0})
acmd41_loop zero env arg = pure tt
acmd41_loop (suc n) env arg =
    let rest = act (delay 5) >> acmd41_loop n env arg in
    acmd41_round env arg >>= λ ready. if ready then pure tt else rest

abbrev pub card_busy : Env → Method Session Bool
card_busy env = get (λ s. env.card_busy s.log)

-- The switch to 1.8 V, with the clock stopped.
unfoldable pub lower_voltage : Env → Method Session (Unit {0})
lower_voltage env = do
  act (delay 2)
  set_up env (set_clock_and_timing 0 legacy false)
  set_up env (set_voltage voltage_180)
  act (delay 5)
  set_up env (set_clock_and_timing (400 * khz) uhs_sdr12 false)
  act (delay 5)

unfoldable pub voltage_switch : Env → Method Session (Unit {0})
voltage_switch env = do
  lower_voltage env
  busy ← card_busy env
  if busy then fail (throws einval) else act (delay 5)

-- What a round of initialisation comes to: another round, or whether the card has 1.8 V.
pub data Attempt : Type 0 where
  again : Attempt
  settled : Bool → Attempt

-- CMD11 and what follows; bit 19 of the status is `error`.
unfoldable pub try_voltage_switch : Env → Method Session Attempt
try_voltage_switch env = do
  exec_arg env cmd11_voltage_switch 0
  check_error
  err ← mmc_status 19
  busy ← card_busy env
  if err
      then fail (throws einval)
      else if busy
      then voltage_switch env >> pure (settled true)
      else pure again

abbrev pub set_addr_mult : Bool → Method Session (Unit {0})
set_addr_mult ccs s = (record s { addr_mult = if ccs then 1 else 512 }, done tt)

unfoldable pub init_card : Env → ℕ → Method Session Attempt
init_card env arg = do
  set_up env (set_bus_width width_1bit)
  set_up env (set_clock_and_timing (400 * khz) legacy false)
  exec_init env cmd0_go_idle_state
  check_error
  exec_arg env cmd8_send_if_cond 0x1aa
  check_error
  acmd41_loop 100 env arg
  ready ← resp_bit 31
  if ready then pure tt else fail (throws einval)
  ccs ← resp_bit 30
  set_addr_mult ccs
  s18a ← resp_bit 24
  if ccs && s18a then try_voltage_switch env else pure (settled false)

abbrev pub on_attempt : Attempt → Method Session Bool → Method Session Bool
on_attempt again rest = rest
on_attempt (settled b) rest = pure b

-- the rounds that are left; behind the last, the card is taken to have no 1.8 V
unfoldable pub init_loop : ℕ → Env → ℕ → Method Session Bool
init_loop zero env arg = pure false
init_loop (suc n) env arg =
    let rest = init_loop n env arg in init_card env arg >>= λ a. on_attempt a rest

-- Reg_csd of the four words of a response
abbrev pub reg_csd : Cmd → RegCsd
reg_csd c = record {
  csd_structure = field c.resp0 30 2;
  tran_speed_mult = field c.resp0 3 4;
  tran_speed_unit = field c.resp0 0 3;
  read_bl_len = field c.resp1 16 4;
  c_size_mult = field c.resp2 15 3;
  c_size_hi = field c.resp1 0 10;
  c_size_lo = field c.resp2 30 2;
  c_size_hi_v1 = field c.resp1 0 6;
  c_size_lo_v1 = field c.resp2 16 16;
}

abbrev pub set_rca : (Session → ℕ) → Method Session (Unit {0})
set_rca f s = (record s { rca = f s }, done tt)

abbrev pub set_num_sectors : Method Session (Unit {0})
set_num_sectors s = (record s { num_sectors = device_size (reg_csd s.cmd) / 512 }, done tt)

-- The commands from CMD2 to CMD7; bit 25 of the status is `device_is_locked`.
unfoldable pub identify : Env → Method Session (Unit {0})
identify env = do
  exec_init env cmd2_all_send_cid
  check_error
  exec_arg env cmd3_send_relative_addr 0
  check_error
  set_rca (λ s. s.cmd.resp0 / 2 ^ 16)
  rca ← get rca_arg
  exec_arg env cmd9_send_csd rca
  check_error
  set_num_sectors
  exec_arg env cmd7_select_card rca
  check_error
  locked ← mmc_status 25
  if locked then fail (throws eio) else pure tt

abbrev pub set_cmd23 : Bool → Method Session (Unit {0})
set_cmd23 b s = (record s { has_cmd23 = b }, done tt)

-- SCR, with the test of the version; given is `has_bus_4bit`.
unfoldable pub read_scr : Env → Method Session Bool
read_scr env = do
  mmc_app_cmd env acmd51_send_scr 0 8
  check_error
  scr ← get (λ s. reg_scr (env.buffer s.log))
  if ltb (sd_spec_vers scr) 300 then fail (throws einval) else set_cmd23 scr.cmd23_support
  pure scr.sd_bus_width_4

unfoldable pub read_ssr : Env → Method Session (Unit {0})
read_ssr env = do mmc_app_cmd env acmd13_sd_status 0 64; check_error
