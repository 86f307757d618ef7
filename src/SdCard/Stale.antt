-- ===== src/SdCard/Stale.antt =====
-- power_up_sd() of server/src/device-impl.h tests `sf`, the status that was read before the search,
-- and not what the card answers to the commands that set its functions.
use emmc_driver.Base.{ℕ, zero, suc, ◌≡◌, refl, ap, Bool, List, ◌>>=◌, ◌>>◌}
use emmc_driver.Mmc.{cmd19_send_tuning_block}
use emmc_driver.PowerUp.{max_loops}
use mathlib.Core.Path.{fun_ext}
use emmc_driver.Mmc.Sd.{SwitchFunc}
use emmc_driver.Session.{Action, Env, get, exec_arg, exec_data, cmd_exec, init_data_io}
use emmc_driver.Session.Switch.{mmc_app_cmd}
use emmc_driver.SdCard.{Host, exec_init}
use emmc_driver.SdCard.Select.{
  SdMode, sd_tuning_loop, after_tuning_block, set_width, set_power, tune_mode, search_sd_mode,
  fastest_sd_mode, try_sd_mode,
}

-- the same card and controller with other contents of the I/O buffer
abbrev pub with_buffer : (List Action → List ℕ) → Env → Env
with_buffer b env = record env { buffer = b }

tuning_same :
    (n : ℕ) (b : List Action → List ℕ) (env : Env)
    → sd_tuning_loop n (with_buffer b env) ≡ sd_tuning_loop n env
unfolding sd_tuning_loop exec_init cmd_exec
tuning_same zero b env = refl
tuning_same (suc n) b env =
    ap
      (λ r.
        exec_init env cmd19_send_tuning_block
        >> (get (λ s. s.cmd.status) >>= λ st. after_tuning_block env st r))
      (tuning_same n b env)

try_same :
    (b : List Action → List ℕ) (env : Env) (host : Host) (w : Bool) (sf : SwitchFunc) (m : SdMode)
    → try_sd_mode (with_buffer b env) host w sf m ≡ try_sd_mode env host w sf m
unfolding try_sd_mode set_width set_power exec_data tune_mode mmc_app_cmd init_data_io cmd_exec
    exec_arg
try_same b env host w sf m = rw (tuning_same max_loops b env) refl

-- What the card answers to the commands that set its power limit and its mode has no influence on
-- the search: any other contents of the buffer for the answers give the same commands, the same
-- session and the same result.
pub search_sd_mode_stale :
    (n : ℕ) (b : List Action → List ℕ) (env : Env) (host : Host) (v18 w : Bool) (sf : SwitchFunc)
    → search_sd_mode n (record env { buffer = b }) host v18 w sf
      ≡ search_sd_mode n env host v18 w sf
unfolding search_sd_mode
search_sd_mode_stale zero b env host v18 w sf = refl
search_sd_mode_stale (suc n) b env host v18 w sf = fun_ext (λ s.
    rw
      (
        try_same b env host w sf (fastest_sd_mode v18 host sf s.disabled),
        search_sd_mode_stale n b env host v18 w sf,
      )
      refl)
