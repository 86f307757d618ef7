-- ===== src/SdCard/Order.antt =====
-- power_up_sd() of server/src/device-impl.h: the order in which it sets up clock and voltage.
use emmc_driver.Base.{
  Method, ◌>>◌, continue, Outcome, done, throws, ◌≡◌, arith, ℕ, zero, suc, Bool, true, false, refl,
  Option, none, some,
}
use emmc_driver.Mmc.{Timing, legacy, voltage_180}
use emmc_driver.Mmc.Sd.{SwitchFunc}
use emmc_driver.Cmd.{Status, success, cmd_timeout}
use emmc_driver.Session.{Env, Session, delay, set_up, set_voltage, set_clock_and_timing}
use emmc_driver.Session.Keep.{Keeps, after, bind-Keeps, then-Keeps, if-Keeps, pure-Keeps, get-Keeps}
use emmc_driver.Session.Order.{VoltageSafe, clock_stopped, order_rules, act-Keeps}
use emmc_driver.SdCard.{
  Host, Attempt, again, settled, exec_init, acmd41_round, acmd41_loop, lower_voltage,
  voltage_switch, try_voltage_switch, init_card, on_attempt, init_loop, identify, read_scr,
  read_ssr, set_addr_mult, set_rca, set_num_sectors, set_cmd23,
}
use emmc_driver.SdCard.Select.{
  switch_function, set_power, set_width, needs_tuning, on_finished, after_tuning_block,
  sd_tuning_loop, tune_card, tune_mode, SdMode, try_sd_mode, search_sd_mode, check_functions,
  already_18, power_up_card, power_up_sd, set_disabled,
}

-- the fields of the session that no action changes
set_addr_mult-Keeps : (b : Bool) → Keeps VoltageSafe (set_addr_mult b)
set_addr_mult-Keeps b = record { keep = λ s p. p }

set_rca-Keeps : (f : Session → ℕ) → Keeps VoltageSafe (set_rca f)
set_rca-Keeps f = record { keep = λ s p. p }

set_num_sectors-Keeps : Keeps VoltageSafe set_num_sectors
set_num_sectors-Keeps = record { keep = λ s p. p }

set_cmd23-Keeps : (b : Bool) → Keeps VoltageSafe (set_cmd23 b)
set_cmd23-Keeps b = record { keep = λ s p. p }

exec_init-Keeps : (env : Env) (c : ℕ) → Keeps VoltageSafe (exec_init env c)
unfolding exec_init
exec_init-Keeps env c = search order_rules depth 14

acmd41_round-Keeps : (env : Env) (a : ℕ) → Keeps VoltageSafe (acmd41_round env a)
unfolding acmd41_round
acmd41_round-Keeps env a = search order_rules depth 14

acmd41_loop-Keeps : (n : ℕ) (env : Env) (a : ℕ) → Keeps VoltageSafe (acmd41_loop n env a)
unfolding acmd41_loop
acmd41_loop-Keeps zero env a = pure-Keeps tt
acmd41_loop-Keeps (suc n) env a = bind-Keeps (acmd41_round-Keeps env a) (λ ready.
    if-Keeps ready (pure-Keeps tt)
      (then-Keeps (act-Keeps (delay 5) refl) (acmd41_loop-Keeps n env a)))

-- the switch to 1.8 V, up to the test of the card
module _ (env : Env) (rest : Method Session (Unit {0})) (k : Keeps VoltageSafe rest) where
  lowered :
      (s : Session)
      → VoltageSafe s
      → clock_stopped s.log ≡ true
      → VoltageSafe ((set_up env (set_voltage voltage_180) >> rest) s).0
  lowered s p c =
      after VoltageSafe (λ u. rest) (set_up env (set_voltage voltage_180) s) (λ u. k)
        (ground (arith, p, c))

  stopped :
      (s : Session) (o : Outcome (Unit {0}))
      → VoltageSafe s
      → clock_stopped s.log ≡ true
      → VoltageSafe (continue (s, o) (λ u. set_up env (set_voltage voltage_180) >> rest)).0
  stopped s (done u) p c = lowered s p c
  stopped s (throws e) p c = p

  -- the clock is stopped, and then the voltage is lowered
  lower-Keeps : Keeps VoltageSafe (
      set_up env (set_clock_and_timing 0 legacy false)
      >> (set_up env (set_voltage voltage_180) >> rest))
  lower-Keeps = record {
    keep = λ s p.
        stopped (set_up env (set_clock_and_timing 0 legacy false) s).0
          (set_up env (set_clock_and_timing 0 legacy false) s).1 p refl;
  }

lower_voltage-Keeps : (env : Env) → Keeps VoltageSafe (lower_voltage env)
unfolding lower_voltage
lower_voltage-Keeps env =
    then-Keeps (act-Keeps (delay 2) refl) (lower-Keeps env _ (search order_rules depth 14))

voltage_switch-Keeps : (env : Env) → Keeps VoltageSafe (voltage_switch env)
unfolding voltage_switch
voltage_switch-Keeps env = search (order_rules, lower_voltage-Keeps) depth 16

try_voltage_switch-Keeps : (env : Env) → Keeps VoltageSafe (try_voltage_switch env)
unfolding try_voltage_switch
try_voltage_switch-Keeps env = search (order_rules, voltage_switch-Keeps) depth 16

init_card-Keeps : (env : Env) (a : ℕ) → Keeps VoltageSafe (init_card env a)
unfolding init_card
init_card-Keeps env a =
    search
      (
        order_rules, exec_init-Keeps, acmd41_loop-Keeps, try_voltage_switch-Keeps,
        set_addr_mult-Keeps,
      )
      depth 24

on_attempt-Keeps :
    (a : Attempt) {rest : Method Session Bool}
    → Keeps VoltageSafe rest
    → Keeps VoltageSafe (on_attempt a rest)
on_attempt-Keeps again k = k
on_attempt-Keeps (settled b) k = pure-Keeps b

init_loop-Keeps : (n : ℕ) (env : Env) (a : ℕ) → Keeps VoltageSafe (init_loop n env a)
unfolding init_loop
init_loop-Keeps zero env a = pure-Keeps false
init_loop-Keeps (suc n) env a =
    bind-Keeps (init_card-Keeps env a) (λ r. on_attempt-Keeps r (init_loop-Keeps n env a))

identify-Keeps : (env : Env) → Keeps VoltageSafe (identify env)
unfolding identify
identify-Keeps env =
    search (order_rules, exec_init-Keeps, set_rca-Keeps, set_num_sectors-Keeps) depth 24

read_scr-Keeps : (env : Env) → Keeps VoltageSafe (read_scr env)
unfolding read_scr
read_scr-Keeps env = search (order_rules, set_cmd23-Keeps) depth 16

read_ssr-Keeps : (env : Env) → Keeps VoltageSafe (read_ssr env)
unfolding read_ssr
read_ssr-Keeps env = search order_rules depth 14

set_width-Keeps : (env : Env) (b : Bool) → Keeps VoltageSafe (set_width env b)
unfolding set_width
set_width-Keeps env b = search order_rules depth 16

switch_function-Keeps : (env : Env) (a f : ℕ) → Keeps VoltageSafe (switch_function env a f)
switch_function-Keeps env a f = search order_rules depth 16

set_power-Keeps :
    (env : Env) (host : Host) (sf : SwitchFunc) (t : Timing)
    → Keeps VoltageSafe (set_power env host sf t)
unfolding set_power
set_power-Keeps env host sf t = if-Keeps _ (pure-Keeps tt) (switch_function-Keeps env _ _)

finished-Keeps :
    (o : Option Bool) {rest : Method Session Bool}
    → Keeps VoltageSafe rest
    → Keeps VoltageSafe (on_finished o rest)
finished-Keeps none k = k
finished-Keeps (some ok) k = pure-Keeps ok

after_tuning_block-Keeps :
    (env : Env) (st : Status) {rest : Method Session Bool}
    → Keeps VoltageSafe rest
    → Keeps VoltageSafe (after_tuning_block env st rest)
after_tuning_block-Keeps env success k = bind-Keeps (get-Keeps _) (λ o. finished-Keeps o k)
after_tuning_block-Keeps env cmd_timeout k = pure-Keeps false
after_tuning_block-Keeps env st k = k

sd_tuning_loop-Keeps : (n : ℕ) (env : Env) → Keeps VoltageSafe (sd_tuning_loop n env)
unfolding sd_tuning_loop
sd_tuning_loop-Keeps zero env = pure-Keeps false
sd_tuning_loop-Keeps (suc n) env = bind-Keeps (exec_init-Keeps env _) (λ u.
    bind-Keeps (get-Keeps _) (λ st. after_tuning_block-Keeps env st (sd_tuning_loop-Keeps n env)))

set_disabled-Keeps : (t : Timing) → Keeps VoltageSafe (set_disabled t)
set_disabled-Keeps t = record { keep = λ s p. p }

tune_mode-Keeps : (env : Env) (host : Host) (t : Timing) → Keeps VoltageSafe (tune_mode env host t)
unfolding tune_mode
tune_mode-Keeps env host t = if-Keeps (needs_tuning host t) tune-Keeps (pure-Keeps true)
  where
    tune-Keeps : Keeps VoltageSafe (tune_card env t)
    tune-Keeps = search (order_rules, sd_tuning_loop-Keeps, set_disabled-Keeps) depth 16

try_sd_mode-Keeps :
    (env : Env) (host : Host) (b : Bool) (sf : SwitchFunc) (m : SdMode)
    → Keeps VoltageSafe (try_sd_mode env host b sf m)
unfolding try_sd_mode
try_sd_mode-Keeps env host b sf m =
    search (order_rules, set_width-Keeps, set_power-Keeps, switch_function-Keeps, tune_mode-Keeps)
      depth 16

search_sd_mode-Keeps :
    (n : ℕ) (env : Env) (host : Host) (v18 b : Bool) (sf : SwitchFunc)
    → Keeps VoltageSafe (search_sd_mode n env host v18 b sf)
unfolding search_sd_mode
search_sd_mode-Keeps zero env host v18 b sf = pure-Keeps none
search_sd_mode-Keeps (suc n) env host v18 b sf = bind-Keeps (get-Keeps _) (λ m.
    bind-Keeps (try_sd_mode-Keeps env host b sf m) (λ works.
      if-Keeps works (pure-Keeps (some m.timing)) (search_sd_mode-Keeps n env host v18 b sf)))

check_functions-Keeps : (env : Env) → Keeps VoltageSafe (check_functions env)
unfolding check_functions
check_functions-Keeps env = search order_rules depth 14

already_18-Keeps :
    (env : Env) (b : Bool) (sf : SwitchFunc) → Keeps VoltageSafe (already_18 env b sf)
unfolding already_18
already_18-Keeps env b sf = search (order_rules, voltage_switch-Keeps) depth 14

power_up_card-Keeps :
    (env : Env) (host : Host) (r : ℕ) → Keeps VoltageSafe (power_up_card env host r)
unfolding power_up_card
power_up_card-Keeps env host r =
    search
      (
        order_rules, init_loop-Keeps, identify-Keeps, read_scr-Keeps, read_ssr-Keeps,
        check_functions-Keeps, already_18-Keeps, search_sd_mode-Keeps,
      )
      depth 20

power_up_sd-Keeps : (env : Env) (host : Host) → Keeps VoltageSafe (power_up_sd env host)
unfolding power_up_sd
power_up_sd-Keeps env host = search (order_rules, set_rca-Keeps, power_up_card-Keeps) depth 20

-- Whatever card and controller answer, and also where it throws, `power_up_sd()` lowers the voltage
-- to 1.8 V only while the clock is stopped.
pub power_up_sd-VoltageSafe :
    (env : Env) (host : Host) (s : Session) → VoltageSafe s → VoltageSafe (power_up_sd env host s).0
power_up_sd-VoltageSafe env host s p = (power_up_sd-Keeps env host).keep s p
