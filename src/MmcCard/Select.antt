-- ===== src/MmcCard/Select.antt =====
-- Device::power_up_mmc() of server/src/device-impl.h: the search for the fastest mode of the device
-- that works, command by command, power_up_mmc() as a whole, and the part of start_device_scan() that
-- tries one kind of card after the other.
use emmc_driver.Base.{
  ℕ, zero, suc, ◌*◌, Bool, true, false, not, ◌||◌, Option, none, some, throws, eio, einval, Method,
  ◌>>◌, ◌>>=◌, if◌then◌else◌,
}
use emmc_driver.Mmc.{
  Timing, legacy, hs, mmc_hs400, voltage_180, voltage_330, width_1bit, cmd0_go_idle_state,
  cmd1_send_op_cond, cmd8_send_if_cond, cmd21_send_tuning_block,
}
use emmc_driver.Cmd.{Status, success, cmd_timeout, init_arg}
use emmc_driver.PowerUp.{
  DeviceType, timing_hs, timing_hs400, w_8bit_ddr, Mode, RoundResult, fastest_mode, disable, mhz,
  max_loops,
}
use emmc_driver.Session.{
  Env, Session, set_bus_width, set_clock_and_timing, set_voltage, delay, pure, fail, act, set_up,
  with_cmd, get, cmd_exec, is_failed, check_error,
}
use emmc_driver.Session.Switch.{mmc_set_bus_width, mmc_set_timing}
use emmc_driver.SdCard.{Host, khz, exec_init}
use emmc_driver.SdCard.Select.{after_tuning_block, PowerUp, no_sd_card, selected, power_up_sd}
use emmc_driver.MmcCard.{MmcInfo, identify_mmc, read_ext_csd, set_features}

abbrev pub voltage_delay_ms : ℕ
voltage_delay_ms = 10

-- The loop over tuning blocks, for as many rounds as are left: whether tuning succeeded.
unfoldable pub mmc_tuning_loop : ℕ → Env → Method Session Bool
mmc_tuning_loop zero env = pure false
mmc_tuning_loop (suc n) env =
    let rest = mmc_tuning_loop n env in
    exec_init env cmd21_send_tuning_block
    >> (get (λ s. s.cmd.status) >>= λ st. after_tuning_block env st rest)

-- a step of the search, and whether the command failed in it
abbrev pub fails : Method Session (Unit {0}) → Method Session Bool
fails m = do m; get is_failed

abbrev pub tune_mmc : Env → Mode → Method Session Bool
tune_mmc env m =
    if m.device_type_test.hs200_sdr_18 then mmc_tuning_loop max_loops env else pure true

-- mmc_set_timing() for the mode of the round, with tuning for HS200: whether it works.
unfoldable pub set_mode : Env → Mode → Method Session Bool
set_mode env m = do
  failed ← fails (mmc_set_timing env m.hs_timing m.mmc_timing m.freq false)
  if failed then pure false else tune_mmc env m

-- The three steps to HS400: whether they work.
unfoldable pub set_hs400 : Env → Bool → Method Session Bool
set_hs400 env enh_strobe = do
  no_hs ← fails (mmc_set_timing env timing_hs hs (52 * mhz) false)
  if no_hs
      then pure false
      else fails (mmc_set_bus_width env w_8bit_ddr enh_strobe) >>= λ no_width.
          if no_width
          then pure false
          else fails (mmc_set_timing env timing_hs400 mmc_hs400 (200 * mhz) enh_strobe)
            >>= λ no_hs400. pure (not no_hs400)

-- the part of a round for HS400
unfoldable pub hs400_part : Env → Bool → DeviceType → DeviceType → Method Session RoundResult
hs400_part env enh_strobe restricted test =
    if restricted.hs400_ddr_18
    then (set_hs400 env enh_strobe >>= λ ok. pure (ok, record test { hs200_sdr_18 = false }))
    else pure (true, test)

-- A round: whether its mode works, and `device_type_test` at that point.
unfoldable pub try_mmc_mode : Env → Bool → DeviceType → Mode → Method Session RoundResult
try_mmc_mode env enh_strobe restricted m = do
  set_up env (set_voltage voltage_180)
  act (delay voltage_delay_ms)
  no_width ← fails (mmc_set_bus_width env m.bus_width false)
  ok ←
      (if no_width
        then pure false
        else if not restricted.hs400_ddr_18 || not enh_strobe
        then set_mode env m
        else pure true)
  if ok
      then hs400_part env enh_strobe restricted m.device_type_test
      else pure (false, m.device_type_test)

abbrev pub on_round :
    RoundResult → Method Session (Option DeviceType) → Method Session (Option DeviceType)
on_round (true, test) rest = pure (some test)
on_round (false, test) rest = rest

abbrev pub on_mode :
    Option Mode → (Mode → Method Session (Option DeviceType)) → Method Session (Option DeviceType)
on_mode none try_it = fail (throws einval)
on_mode (some m) try_it = try_it m

-- The search, with the device types that are left and fuel for its rounds.
unfoldable pub search_mmc_mode : ℕ → Env → Bool → DeviceType → Method Session (Option DeviceType)
search_mmc_mode zero env enh_strobe r = pure none
search_mmc_mode (suc fuel) env enh_strobe r = on_mode (fastest_mode r) (λ m.
    try_mmc_mode env enh_strobe r m >>= λ result.
    on_round result (search_mmc_mode fuel env enh_strobe (disable r result.1)))

-- a round for each of the five modes, and the one that throws
abbrev pub mmc_rounds : ℕ
mmc_rounds = 6

-- What power_up_mmc() comes to: no device, or the type that was selected, EXT_CSD and `_has_cache`.
pub data PowerUpMmc : Type 0 where
  no_mmc : PowerUpMmc
  mmc_device : Option DeviceType → MmcInfo → Bool → PowerUpMmc

unfoldable pub power_up_device : Env → Host → DeviceType → ℕ → Method Session PowerUpMmc
power_up_device env host off ocr = do
  identify_mmc env host ocr
  info ← read_ext_csd env off
  has_cache ← set_features env
  t ← search_mmc_mode mmc_rounds env info.enh_strobe info.restricted
  pure (mmc_device t info has_cache)

unfoldable pub power_up_mmc : Env → Host → DeviceType → Method Session PowerUpMmc
power_up_mmc env host off = do
  exec_init env cmd1_send_op_cond
  failed ← get is_failed
  ocr ← get (λ s. s.cmd.resp0)
  if failed then pure no_mmc else power_up_device env host off ocr

-- The command CMD8 whose error is expected.
abbrev pub probe_voltage : Env → Method Session (Unit {0})
probe_voltage env = do
  with_cmd (λ c. init_arg c cmd8_send_if_cond 0x1aa)
  with_cmd (λ c. record c { flags = record (c.flags) { expected_error = true } })
  cmd_exec env

abbrev pub is_answered : Status → Bool
is_answered success = true
is_answered cmd_timeout = true
is_answered st = false

-- CMD0 and CMD8: whether the card answered, or did not know the command.
unfoldable pub probe : Env → Method Session Bool
probe env = do
  exec_init env cmd0_go_idle_state
  check_error
  probe_voltage env
  get (λ s. is_answered s.cmd.status)

-- What start_device_scan() has found.
pub data Found : Type 0 where
  sd_card : Option Timing → Found
  mmc : PowerUpMmc → Found

abbrev pub on_mmc : PowerUpMmc → Method Session Found
on_mmc no_mmc = fail (throws eio)
on_mmc r = pure (mmc r)

abbrev pub on_sd : Env → Host → DeviceType → PowerUp → Method Session Found
on_sd env host off no_sd_card = power_up_mmc env host off >>= λ r. on_mmc r
on_sd env host off (selected t) = pure (sd_card t)

unfoldable pub find_card : Env → Host → DeviceType → Method Session Found
find_card env host off = power_up_sd env host >>= λ r. on_sd env host off r

-- The set-up of start_device_scan() in its thread: the card is probed twice at most.
unfoldable pub init_device : Env → Host → DeviceType → Method Session Found
init_device env host off = do
  set_up env (set_voltage voltage_330)
  act (delay voltage_delay_ms)
  set_up env (set_bus_width width_1bit)
  set_up env (set_clock_and_timing (400 * khz) legacy false)
  first ← probe env
  second ← (if first then pure true else probe env)
  if second then find_card env host off else fail (throws eio)
