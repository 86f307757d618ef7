-- ===== src/Session/Frame.antt =====
-- The steps of server/src/device-impl.h that send commands and set up the controller leave the modes
-- that are disabled as they are.
use emmc_driver.Base.{ℕ, ◌≡◌, arith}
use emmc_driver.Cmd.{Cmd}
use emmc_driver.Session.{
  Action, SdModes, Env, Session, act, set_up, with_cmd, cmd_exec, exec_arg, exec_data, init_data_io,
  check_error,
}
use emmc_driver.Session.Keep.{Keeps, keep_rules, then-Keeps}
use emmc_driver.Session.Switch.{mmc_app_cmd}

abbrev pub Disabled : SdModes → Session → Type 0
Disabled d s = s.disabled ≡ d

module _ {d : SdModes} where
  pub act-Keeps : (a : Action) → Keeps (Disabled d) (act a)
  act-Keeps a = record { keep = λ s p. p }

  pub set_up-Keeps : (env : Env) (a : Action) → Keeps (Disabled d) (set_up env a)
  set_up-Keeps env a = record { keep = λ s p. p }

  pub with_cmd-Keeps : (f : Cmd → Cmd) → Keeps (Disabled d) (with_cmd f)
  with_cmd-Keeps f = record { keep = λ s p. p }

  pub cmd_exec-Keeps : (env : Env) → Keeps (Disabled d) (cmd_exec env)
  unfolding cmd_exec
  cmd_exec-Keeps env = record { keep = λ s p. p }

  pub exec_arg-Keeps : (env : Env) (c a : ℕ) → Keeps (Disabled d) (exec_arg env c a)
  unfolding exec_arg
  exec_arg-Keeps env c a = then-Keeps (with_cmd-Keeps _) (cmd_exec-Keeps env)

  pub init_data_io-Keeps : (env : Env) (c a n : ℕ) → Keeps (Disabled d) (init_data_io env c a n)
  unfolding init_data_io
  init_data_io-Keeps env c a n = record { keep = λ s p. p }

  pub exec_data-Keeps : (env : Env) (c a n : ℕ) → Keeps (Disabled d) (exec_data env c a n)
  unfolding exec_data
  exec_data-Keeps env c a n = then-Keeps (init_data_io-Keeps env c a n) (cmd_exec-Keeps env)

  pub check_error-Keeps : Keeps (Disabled d) check_error
  unfolding check_error
  check_error-Keeps = record { keep = λ s p. ground (arith, p) }

  pub mmc_app_cmd-Keeps : (env : Env) (c a n : ℕ) → Keeps (Disabled d) (mmc_app_cmd env c a n)
  unfolding mmc_app_cmd
  mmc_app_cmd-Keeps env c a n =
      search (keep_rules, exec_arg-Keeps, with_cmd-Keeps, cmd_exec-Keeps, init_data_io-Keeps) depth
        14

pub ruleset frame_rules = (
  keep_rules, act-Keeps, set_up-Keeps, with_cmd-Keeps, cmd_exec-Keeps, exec_arg-Keeps,
  exec_data-Keeps, check_error-Keeps, mmc_app_cmd-Keeps,
)
