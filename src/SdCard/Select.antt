-- ===== src/SdCard/Select.antt =====
-- Device::power_up_sd() of server/src/device-impl.h: the search for the fastest mode of the card that
-- works, and power_up_sd() as a whole.
use emmc_driver.Base.{
  ℕ, zero, suc, ◌+◌, ◌*◌, ◌^◌, Bool, true, false, not, ◌&&◌, ◌||◌, Option, none, some, done, throws,
  einval, Method, ◌>>◌, ◌>>=◌, ◌==◌, if◌then◌else◌,
}
use emmc_driver.Mmc.{
  Timing, legacy, hs, uhs_sdr12, uhs_sdr25, uhs_sdr50, uhs_sdr104, uhs_ddr50, width_4bit,
  cmd6_switch_func, cmd19_send_tuning_block, acmd6_set_bus_width, acmd41_sd_app_op_cond,
}
use emmc_driver.Mmc.Sd.{SwitchFunc, reg_switch_func}
use emmc_driver.Cmd.{Status, success, cmd_timeout}
use emmc_driver.PowerUp.{mhz, max_loops}
use emmc_driver.Session.{
  SdModes, Env, Session, set_bus_width, set_clock_and_timing, reset_tuning, enable_auto_tuning,
  pure, fail, act, set_up, get, exec_data, is_failed, check_error,
}
use emmc_driver.Session.Switch.{mmc_app_cmd}
use emmc_driver.SdCard.{
  Host, khz, acmd41_arg, exec_init, voltage_switch, init_loop, identify, read_scr, read_ssr,
  set_rca,
}

-- `mmc_timing`, `a6_timing` and `freq` of a round
pub record SdMode : Type 0 where
  pub timing : Timing
  pub acc_mode : ℕ
  pub freq : ℕ

unfoldable pub fastest_sd_mode : Bool → Host → SwitchFunc → SdModes → SdMode
fastest_sd_mode v18 host sf disabled =
    if v18 && (host.supp.sdr104 && (sf.acc_mode_sdr104 && not disabled.sdr104))
    then record { timing = uhs_sdr104; acc_mode = 3; freq = 208 * mhz }
    else if v18 && (host.supp.ddr50 && (sf.acc_mode_ddr50 && not disabled.ddr50))
    then record { timing = uhs_ddr50; acc_mode = 4; freq = 50 * mhz }
    else if v18 && (host.supp.sdr50 && (sf.acc_mode_sdr50 && not disabled.sdr50))
    then record { timing = uhs_sdr50; acc_mode = 2; freq = 100 * mhz }
    else if host.supp.sdr25 && (sf.acc_mode_sdr25 && not disabled.sdr25)
    then record { timing = uhs_sdr25; acc_mode = 1; freq = 50 * mhz }
    else if host.supp.sdr12 && (sf.acc_mode_sdr12 && not disabled.sdr12)
    then record { timing = uhs_sdr12; acc_mode = 0; freq = 25 * mhz }
    else record { timing = hs; acc_mode = 0; freq = 25 * mhz }

-- Arg_cmd6_switch_func after reset(), with a function of group 1 or of group 4; `Set_function` is
-- bit 31, `Dont_change` is 0xf.
abbrev pub set_mode_arg : ℕ → ℕ
set_mode_arg acc_mode = 2 ^ 31 + 0xfffff0 + acc_mode

abbrev pub set_power_arg : ℕ → ℕ
set_power_arg limit = 2 ^ 31 + 0xff0fff + limit * 2 ^ 12

-- `Check_function` for the mode SDR12
abbrev pub check_mode_arg : ℕ
check_mode_arg = 0xfffff0

-- `a6_power`, where 0 is `Grp4_default`
abbrev pub power_limit : Host → SwitchFunc → ℕ
power_limit host sf =
    if host.power_288w && sf.power_limit_288w
    then 3
    else if host.power_216w && sf.power_limit_216w
    then 2
    else if host.power_180w && sf.power_limit_180w
    then 4
    else if host.power_144w && sf.power_limit_144w
    then 1
    else 0

-- CMD6 with a test of `sf`, which is the status that was read before the search.
abbrev pub switch_function : Env → ℕ → ℕ → Method Session (Unit {0})
switch_function env arg fun_sel = do
  exec_data env cmd6_switch_func arg 64
  check_error
  if fun_sel == 0xf then fail (throws einval) else pure tt

abbrev pub is_hs : Timing → Bool
is_hs hs = true
is_hs _ = false

unfoldable pub set_power : Env → Host → SwitchFunc → Timing → Method Session (Unit {0})
set_power env host sf timing =
    if is_hs timing || (power_limit host sf == 0)
    then pure tt
    else switch_function env (set_power_arg (power_limit host sf)) sf.fun_sel_grp4

unfoldable pub set_width : Env → Bool → Method Session (Unit {0})
set_width env has_bus_4bit =
    if has_bus_4bit
    then mmc_app_cmd env acmd6_set_bus_width 2 0
      >> check_error
      >> set_up env (set_bus_width width_4bit)
    else pure tt

-- The loop over tuning blocks, for as many rounds as are left: whether tuning succeeded.
abbrev pub on_finished : Option Bool → Method Session Bool → Method Session Bool
on_finished none rest = rest
on_finished (some ok) rest = pure ok

abbrev pub after_tuning_block : Env → Status → Method Session Bool → Method Session Bool
after_tuning_block env success rest =
    get (λ s. env.tuning_finished s.log) >>= λ finished. on_finished finished rest
after_tuning_block env cmd_timeout rest = pure false
after_tuning_block env status rest = rest

unfoldable pub sd_tuning_loop : ℕ → Env → Method Session Bool
sd_tuning_loop zero env = pure false
sd_tuning_loop (suc n) env =
    let rest = sd_tuning_loop n env in
    exec_init env cmd19_send_tuning_block
    >> (get (λ s. s.cmd.status) >>= λ st. after_tuning_block env st rest)

abbrev pub needs_tuning : Host → Timing → Bool
needs_tuning host uhs_sdr104 = true
needs_tuning host uhs_ddr50 = true
needs_tuning host uhs_sdr50 = host.needs_tuning_sdr50
needs_tuning host _ = false

-- `_device_type_disable.sd |= mmc_timing`
abbrev pub disable_mode : Timing → SdModes → SdModes
disable_mode uhs_sdr12 d = record d { sdr12 = true }
disable_mode uhs_sdr25 d = record d { sdr25 = true }
disable_mode uhs_sdr50 d = record d { sdr50 = true }
disable_mode uhs_sdr104 d = record d { sdr104 = true }
disable_mode uhs_ddr50 d = record d { ddr50 = true }
disable_mode _ d = d

abbrev pub set_disabled : Timing → Method Session (Unit {0})
set_disabled t s = (record s { disabled = disable_mode t s.disabled }, done tt)

-- `continue` behind a failed tuning
abbrev pub give_up_mode : Env → Timing → Method Session Bool
give_up_mode env t = do
  set_disabled t
  set_up env (set_clock_and_timing (400 * khz) legacy false)
  pure false

abbrev pub tune_card : Env → Timing → Method Session Bool
tune_card env t = do
  act reset_tuning
  ok ← sd_tuning_loop max_loops env
  if ok then act enable_auto_tuning >> pure true else give_up_mode env t

-- whether the mode of a round works
unfoldable pub tune_mode : Env → Host → Timing → Method Session Bool
tune_mode env host t = if needs_tuning host t then tune_card env t else pure true

unfoldable pub try_sd_mode : Env → Host → Bool → SwitchFunc → SdMode → Method Session Bool
try_sd_mode env host has_bus_4bit sf m = do
  set_width env has_bus_4bit
  set_power env host sf m.timing
  switch_function env (set_mode_arg m.acc_mode) sf.fun_sel_grp1
  set_up env (set_clock_and_timing m.freq m.timing false)
  tune_mode env host m.timing

-- The search, with fuel for its rounds.
unfoldable pub search_sd_mode :
    ℕ → Env → Host → Bool → Bool → SwitchFunc → Method Session (Option Timing)
search_sd_mode zero env host v18 has_bus_4bit sf = pure none
search_sd_mode (suc fuel) env host v18 has_bus_4bit sf =
    let rest = search_sd_mode fuel env host v18 has_bus_4bit sf in
    get (λ s. fastest_sd_mode v18 host sf s.disabled) >>= λ m.
    try_sd_mode env host has_bus_4bit sf m >>= λ works. if works then pure (some m.timing) else rest

-- The status of the switch function for SDR12, by which the search goes.
unfoldable pub check_functions : Env → Method Session SwitchFunc
check_functions env = do
  exec_data env cmd6_switch_func check_mode_arg 64
  check_error
  get (λ s. reg_switch_func (env.buffer s.log))

-- The switch to 1.8 V of a card that has the modes for it already; given is `v18`.
unfoldable pub already_18 : Env → Bool → SwitchFunc → Method Session Bool
already_18 env v18 sf =
    if not v18 && (sf.acc_mode_sdr104 || (sf.acc_mode_ddr50 || sf.acc_mode_sdr50))
    then voltage_switch env >> pure true
    else pure v18

-- each round but the last disables one of the three modes that are tuned
abbrev pub search_rounds : ℕ
search_rounds = 4

-- power_up_sd() behind ACMD41
unfoldable pub power_up_card : Env → Host → ℕ → Method Session (Option Timing)
power_up_card env host resp = do
  v18 ← init_loop 10 env (acmd41_arg host resp)
  identify env
  has_bus_4bit ← read_scr env
  read_ssr env
  sf ← check_functions env
  v18' ← already_18 env v18 sf
  search_sd_mode search_rounds env host v18' has_bus_4bit sf

-- The result of power_up_sd(): the timing that was selected, or that there is no SD card.
pub data PowerUp : Type 0 where
  no_sd_card : PowerUp
  selected : Option Timing → PowerUp

unfoldable pub power_up_sd : Env → Host → Method Session PowerUp
power_up_sd env host = do
  set_rca (λ s. 0)
  mmc_app_cmd env acmd41_sd_app_op_cond 0 0
  failed ← get is_failed
  resp ← get (λ s. s.cmd.resp0)
  if failed then pure no_sd_card else power_up_card env host resp >>= λ t. pure (selected t)
