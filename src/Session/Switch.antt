-- ===== src/Session/Switch.antt =====
-- exec_mmc_switch(), mmc_app_cmd(), mmc_set_bus_width(), mmc_set_timing(), reset_sdio() and
-- adapt_ocr() of server/src/device-impl.h: the sequences of commands that powering up is made of.
use emmc_driver.Base.{
  ℕ, zero, suc, ◌+◌, ◌*◌, ◌%◌, ◌^◌, Bool, true, false, not, ◌&&◌, ◌||◌, done, throws, eio, Method,
  ◌>>◌, ◌>>=◌, ◌==◌, if◌then◌else◌, get_or,
}
use emmc_driver.Mmc.{
  test_bit, Timing, width_8bit, cmd6_switch, cmd8_send_ext_csd, cmd13_send_status,
  cmd52_io_rw_direct, cmd55_app_cmd,
}
use emmc_driver.Cmd.{Cmd, error, is_success, init_arg, mark_app_cmd, switch_error}
use emmc_driver.PowerUp.{HsTiming, Width, w_8bit_sdr, w_8bit_ddr, hs_timing_value}
use emmc_driver.Session.{
  Env, Session, set_bus_width, set_clock_and_timing, delay, pure, act, set_up, with_cmd, get,
  cmd_exec, exec_arg, exec_data, init_data_io, is_failed, mmc_status, rca_arg,
}

-- Arg_cmd6_switch with `Write_byte`
abbrev pub switch_arg : ℕ → ℕ → ℕ
switch_arg idx val = 3 * 2 ^ 24 + idx % 2 ^ 8 * 2 ^ 16 + val % 2 ^ 8 * 2 ^ 8

-- Whether the loop ends: by an error of CMD13, by a switch error, or since the device is ready.
unfoldable pub poll_result : Method Session Bool
poll_result s =
    if is_failed s
    then (s, done true)
    else if switch_error s.cmd
    then (s, done true)
    else mmc_status 8 s

unfoldable pub poll_status : Env → Method Session Bool
poll_status env s = (exec_arg env cmd13_send_status (rca_arg s) >> poll_result) s

-- the loop, for as many rounds as are left
unfoldable pub poll_loop : ℕ → Env → Method Session (Unit {0})
poll_loop zero env = pure tt
poll_loop (suc n) env =
    let rest = act (delay 1) >> poll_loop n env in
    poll_status env >>= λ stop. if stop then pure tt else rest

abbrev pub polls : ℕ
polls = 50

abbrev pub mark_status : Bool → Cmd → Cmd
mark_status b c =
    if b then record c { flags = record (c.flags) { status_after_switch = true } } else c

-- The counters of polls are left out.
unfoldable pub exec_mmc_switch : Env → ℕ → ℕ → Bool → Method Session (Unit {0})
exec_mmc_switch env idx val with_status = do
  with_cmd (λ c. mark_status with_status (init_arg c cmd6_switch (switch_arg idx val)))
  cmd_exec env
  ok ← get (λ s. is_success s.cmd.status)
  if ok then poll_loop polls env else pure tt

-- `datalen` is 0 for a command without data.
unfoldable pub mmc_app_cmd : Env → ℕ → ℕ → ℕ → Method Session (Unit {0})
mmc_app_cmd env cmdval arg datalen = do
  rca ← get rca_arg
  exec_arg env cmd55_app_cmd rca
  failed ← get is_failed
  if failed
      then pure tt
      else (if datalen == 0
          then with_cmd (λ c. init_arg c cmdval arg)
          else init_data_io env cmdval arg datalen)
        >> (with_cmd mark_app_cmd >> cmd_exec env)

-- Ec183_bus_width: `bus_mode_select` in bits 0 to 3, `enhanced_strobe` in bit 7
abbrev pub bus_width_value : Width → Bool → ℕ
bus_width_value w_8bit_sdr strobe = 2 + (if strobe then 2 ^ 7 else 0)
bus_width_value w_8bit_ddr strobe = 6 + (if strobe then 2 ^ 7 else 0)

-- The controller is set to 8 bits where the switch worked; an error is left to the caller.
unfoldable pub mmc_set_bus_width : Env → Width → Bool → Method Session (Unit {0})
mmc_set_bus_width env width strobe = do
  exec_mmc_switch env 183 (bus_width_value width strobe) true
  failed ← get (λ s. is_failed s || switch_error s.cmd)
  if failed then pure tt else set_up env (set_bus_width width_8bit)

abbrev pub set_error : Method Session (Unit {0})
set_error = with_cmd (λ c. record c { status = error })

-- `cmd->error() || cmd->switch_error()`
abbrev pub has_switch_error : Session → Bool
has_switch_error s = is_failed s || switch_error s.cmd

-- The timing that EXT_CSD shows, the low half of byte 185.
abbrev pub ecsd_timing : Env → Session → ℕ
ecsd_timing env s = get_or (env.buffer s.log) 185 0 % 2 ^ 4

-- CMD8, and the test of the timing that it reports
unfoldable pub check_timing : Env → HsTiming → Method Session (Unit {0})
check_timing env hs_timing = do
  exec_data env cmd8_send_ext_csd 0 512
  failed ← get is_failed
  wrong ← get (λ s. not (ecsd_timing env s == hs_timing_value hs_timing))
  if failed || wrong then set_error else pure tt

-- CMD13 for the device with the argument `rca`, and what follows
unfoldable pub check_status : Env → HsTiming → ℕ → Method Session (Unit {0})
check_status env hs_timing rca = do
  exec_arg env cmd13_send_status rca
  failed ← get has_switch_error
  if failed then set_error else check_timing env hs_timing

unfoldable pub mmc_set_timing : Env → HsTiming → Timing → ℕ → Bool → Method Session (Unit {0})
mmc_set_timing env hs_timing mmc_timing freq strobe = do
  exec_mmc_switch env 185 (hs_timing_value hs_timing) true
  failed ← get has_switch_error
  if failed
      then set_error
      else set_up env (set_clock_and_timing freq mmc_timing strobe)
        >> (get rca_arg >>= check_status env hs_timing)

-- Arg_cmd52_io_rw_direct for the address 6 of function 0
abbrev pub io_rw_arg : Bool → ℕ → ℕ
io_rw_arg write value = (if write then 2 ^ 31 else 0) + 6 * 2 ^ 9 + value

abbrev pub exec_expected : Env → ℕ → Method Session (Unit {0})
exec_expected env arg = do
  with_cmd (λ c. init_arg c cmd52_io_rw_direct arg)
  with_cmd (λ c. record c { flags = record (c.flags) { expected_error = true } })
  cmd_exec env

unfoldable pub reset_sdio : Env → Method Session (Unit {0})
reset_sdio env = do
  exec_expected env (io_rw_arg false 0)
  failed ← get is_failed
  if failed then exec_expected env (io_rw_arg true 8) else λ s. (s, throws eio)

-- A bit of the voltage window that the card and the controller have.
abbrev pub common_bit : ℕ → ℕ → ℕ → ℕ
common_bit dev drv k = if test_bit dev k && test_bit drv k then 1 else 0

-- Arg_acmd41_sd_send_op: the window in bits 15 to 23, and `hcs`.
unfoldable pub adapt_ocr : ℕ → ℕ → ℕ
adapt_ocr dev drv =
    common_bit dev drv 23 * 2 ^ 23
    + common_bit dev drv 22 * 2 ^ 22
    + common_bit dev drv 21 * 2 ^ 21
    + common_bit dev drv 20 * 2 ^ 20
    + common_bit dev drv 19 * 2 ^ 19
    + common_bit dev drv 18 * 2 ^ 18
    + common_bit dev drv 17 * 2 ^ 17
    + common_bit dev drv 16 * 2 ^ 16
    + common_bit dev drv 15 * 2 ^ 15
    + 2 ^ 30
