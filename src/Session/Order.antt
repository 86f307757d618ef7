-- ===== src/Session/Order.antt =====
-- The order in which server/src/device-impl.h sets up the controller: the voltage goes down to 1.8 V
-- while the clock is stopped.
use emmc_driver.Base.{ℕ, Bool, true, false, ◌&&◌, List, [], ◌∷◌, ◌≡◌, refl, ◌==◌, arith}
use emmc_driver.Mmc.{voltage_180}
use emmc_driver.Cmd.{Cmd}
use emmc_driver.Session.{
  Action, sent, set_clock_and_timing, set_voltage, Env, Session, act, set_up, with_cmd, cmd_exec,
  exec_arg, exec_data, init_data_io, check_error, mmc_status,
}
use emmc_driver.Session.Keep.{
  Keeps, keep_rules, bind-Keeps, then-Keeps, if-Keeps, pure-Keeps, get-Keeps, fail-Keeps,
}
use emmc_driver.Session.Switch.{mmc_app_cmd}

-- whether the clock that was set last is none
abbrev pub clock_stopped : List Action → Bool
clock_stopped [] = false
clock_stopped (set_clock_and_timing freq t strobe ∷ l) = freq == 0
clock_stopped (a ∷ l) = clock_stopped l

-- Whenever the voltage was set to 1.8 V, the clock was stopped.
abbrev pub voltage_safe : List Action → Bool
voltage_safe [] = true
voltage_safe (set_voltage voltage_180 ∷ l) = clock_stopped l && voltage_safe l
voltage_safe (a ∷ l) = voltage_safe l

abbrev pub VoltageSafe : Session → Type 0
VoltageSafe s = voltage_safe s.log ≡ true

abbrev is_other : Action → Bool
is_other (set_voltage v) = false
is_other a = true

other : (a : Action) (l : List Action) → is_other a ≡ true → voltage_safe (a ∷ l) ≡ voltage_safe l
other (set_voltage v) l h = absurd (ground arith)
other (sent c n) l h = refl
other a l h = refl

pub act-Keeps : (a : Action) → is_other a ≡ true → Keeps VoltageSafe (act a)
act-Keeps a h = record { keep = λ s p. rw (other a s.log h) p }

pub set_up-Keeps : (env : Env) (a : Action) → is_other a ≡ true → Keeps VoltageSafe (set_up env a)
set_up-Keeps env a h = record { keep = λ s p. rw (other a s.log h) p }

pub with_cmd-Keeps : (f : Cmd → Cmd) → Keeps VoltageSafe (with_cmd f)
with_cmd-Keeps f = record { keep = λ s p. p }

pub cmd_exec-Keeps : (env : Env) → Keeps VoltageSafe (cmd_exec env)
unfolding cmd_exec
cmd_exec-Keeps env = record { keep = λ s p. p }

pub exec_arg-Keeps : (env : Env) (c a : ℕ) → Keeps VoltageSafe (exec_arg env c a)
unfolding exec_arg
exec_arg-Keeps env c a = then-Keeps (with_cmd-Keeps _) (cmd_exec-Keeps env)

pub init_data_io-Keeps : (env : Env) (c a n : ℕ) → Keeps VoltageSafe (init_data_io env c a n)
unfolding init_data_io
init_data_io-Keeps env c a n = record { keep = λ s p. p }

pub exec_data-Keeps : (env : Env) (c a n : ℕ) → Keeps VoltageSafe (exec_data env c a n)
unfolding exec_data
exec_data-Keeps env c a n = then-Keeps (init_data_io-Keeps env c a n) (cmd_exec-Keeps env)

pub check_error-Keeps : Keeps VoltageSafe check_error
unfolding check_error
check_error-Keeps = record { keep = λ s p. ground (arith, p) }

pub mmc_status-Keeps : (k : ℕ) → Keeps VoltageSafe (mmc_status k)
unfolding mmc_status
mmc_status-Keeps k = record { keep = λ s p. ground (arith, p) }

pub mmc_app_cmd-Keeps : (env : Env) (c a n : ℕ) → Keeps VoltageSafe (mmc_app_cmd env c a n)
unfolding mmc_app_cmd
mmc_app_cmd-Keeps env c a n =
    search (keep_rules, exec_arg-Keeps, with_cmd-Keeps, cmd_exec-Keeps, init_data_io-Keeps) depth 14

pub ruleset order_rules = (
  keep_rules, act-Keeps, set_up-Keeps, with_cmd-Keeps, cmd_exec-Keeps, exec_arg-Keeps,
  exec_data-Keeps, check_error-Keeps, mmc_status-Keeps, mmc_app_cmd-Keeps,
)
