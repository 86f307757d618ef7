-- ===== src/SdCard/Search.antt =====
-- The search of power_up_sd() in server/src/device-impl.h comes to an end, with the fastest mode that
-- is left.
use emmc_driver.Base.{
  ℕ, zero, suc, ◌+◌, ◌*◌, ◌≤◌, ◌<◌, ◌≡◌, refl, sym, ap, Bool, true, false, not, ◌&&◌, Option, none,
  some, arith, ◌>>◌, if◌then◌else◌, Method,
}
use mathlib.Core.Path.{subst}
use emmc_driver.Mmc.{Timing, legacy, hs, uhs_sdr12, uhs_sdr25, uhs_sdr50, uhs_sdr104, uhs_ddr50}
use emmc_driver.Mmc.Sd.{SwitchFunc}
use emmc_driver.Cmd.{Status, success, cmd_timeout}
use emmc_driver.Session.{
  SdModes, Env, Session, pure, act, set_up, reset_tuning, enable_auto_tuning, set_clock_and_timing,
}
use emmc_driver.Session.Keep.{Keeps, bind-Keeps, pure-Keeps, get-Keeps}
use emmc_driver.Session.Post.{
  state-Leaves, Post, Leaves, bind-Leaves, then-Leaves, if-Leaves, pure-Leaves,
}
use emmc_driver.Session.Frame.{Disabled, frame_rules, act-Keeps, set_up-Keeps}
use emmc_driver.PowerUp.{max_loops}
use emmc_driver.SdCard.{Host, exec_init, khz}
use emmc_driver.SdCard.Select.{
  SdMode, fastest_sd_mode, switch_function, set_power, set_width, needs_tuning, on_finished,
  after_tuning_block, sd_tuning_loop, disable_mode, set_disabled, give_up_mode, tune_card,
  tune_mode, try_sd_mode, search_sd_mode, search_rounds,
}

exec_init-Keeps : (env : Env) (c : ℕ) {d : SdModes} → Keeps (Disabled d) (exec_init env c)
unfolding exec_init
exec_init-Keeps env c = search frame_rules depth 14

set_width-Keeps : (env : Env) (b : Bool) {d : SdModes} → Keeps (Disabled d) (set_width env b)
unfolding set_width
set_width-Keeps env b = search frame_rules depth 16

set_power-Keeps :
    (env : Env) (host : Host) (sf : SwitchFunc) (t : Timing) {d : SdModes}
    → Keeps (Disabled d) (set_power env host sf t)
unfolding set_power
set_power-Keeps env host sf t = search frame_rules depth 16

switch_function-Keeps :
    (env : Env) (a f : ℕ) {d : SdModes} → Keeps (Disabled d) (switch_function env a f)
switch_function-Keeps env a f = search frame_rules depth 16

finished-Keeps :
    (o : Option Bool) {d : SdModes} {rest : Method Session Bool}
    → Keeps (Disabled d) rest
    → Keeps (Disabled d) (on_finished o rest)
finished-Keeps none k = k
finished-Keeps (some ok) k = pure-Keeps ok

after_tuning_block-Keeps :
    (env : Env) (st : Status) {d : SdModes} {rest : Method Session Bool}
    → Keeps (Disabled d) rest
    → Keeps (Disabled d) (after_tuning_block env st rest)
after_tuning_block-Keeps env success k = bind-Keeps (get-Keeps _) (λ o. finished-Keeps o k)
after_tuning_block-Keeps env cmd_timeout k = pure-Keeps false
after_tuning_block-Keeps env st k = k

sd_tuning_loop-Keeps : (n : ℕ) (env : Env) {d : SdModes} → Keeps (Disabled d) (sd_tuning_loop n env)
unfolding sd_tuning_loop
sd_tuning_loop-Keeps zero env = pure-Keeps false
sd_tuning_loop-Keeps (suc n) env = bind-Keeps (exec_init-Keeps env _) (λ u.
    bind-Keeps (get-Keeps _) (λ st. after_tuning_block-Keeps env st (sd_tuning_loop-Keeps n env)))

-- A round that does not work disables its mode, which is one of those that are tuned.
abbrev Tried : Host → SdModes → Timing → Bool → Session → Type 0
Tried host d t true s = s.disabled ≡ d
Tried host d t false s = (s.disabled ≡ disable_mode t d) × (needs_tuning host t ≡ true)

give_up_mode-Leaves :
    (env : Env) (host : Host) (d : SdModes) (t : Timing)
    → needs_tuning host t ≡ true
    → Leaves (Disabled d) (Tried host d t) (give_up_mode env t)
give_up_mode-Leaves env host d t h =
    bind-Leaves {R = λ u. Tried host d t false} {m = set_disabled t}
      (record { leave = λ s p. (ap (disable_mode t) p, h) })
      (λ u.
        bind-Leaves {R = λ u. Tried host d t false}
          {m = set_up env (set_clock_and_timing (400 * khz) legacy false)} (state-Leaves (λ s p. p))
          (λ v. pure-Leaves false (λ s p. p)))

tune-Leaves :
    (env : Env) (host : Host) (d : SdModes) (t : Timing)
    → needs_tuning host t ≡ true
    → Leaves (Disabled d) (Tried host d t) (tune_card env t)
tune-Leaves env host d t h = then-Leaves (act-Keeps reset_tuning) (λ u.
    then-Leaves (sd_tuning_loop-Keeps max_loops env) (λ ok.
      if-Leaves ok {m = act enable_auto_tuning >> pure true} (λ e. record { leave = λ s p. p })
        (λ e. give_up_mode-Leaves env host d t h)))

try_sd_mode-Leaves :
    (env : Env) (host : Host) (b : Bool) (sf : SwitchFunc) (d : SdModes) (m : SdMode)
    → Leaves (Disabled d) (Tried host d m.timing) (try_sd_mode env host b sf m)
unfolding try_sd_mode tune_mode
try_sd_mode-Leaves env host b sf d m = then-Leaves (set_width-Keeps env b) (λ u.
    then-Leaves (set_power-Keeps env host sf m.timing) (λ u.
      then-Leaves (switch_function-Keeps env _ _) (λ u.
        then-Leaves (set_up-Keeps env (set_clock_and_timing m.freq m.timing false)) (λ u.
          if-Leaves (needs_tuning host m.timing) (tune-Leaves env host d m.timing)
            (λ e. pure-Leaves true (λ s p. p))))))

-- whether card and controller have a mode and it is not disabled; `hs` is the mode without UHS
abbrev pub offered : Bool → Host → SwitchFunc → SdModes → Timing → Bool
offered v18 host sf d uhs_sdr104 = v18 && (host.supp.sdr104 && (sf.acc_mode_sdr104 && not d.sdr104))
offered v18 host sf d uhs_ddr50 = v18 && (host.supp.ddr50 && (sf.acc_mode_ddr50 && not d.ddr50))
offered v18 host sf d uhs_sdr50 = v18 && (host.supp.sdr50 && (sf.acc_mode_sdr50 && not d.sdr50))
offered v18 host sf d uhs_sdr25 = host.supp.sdr25 && (sf.acc_mode_sdr25 && not d.sdr25)
offered v18 host sf d uhs_sdr12 = host.supp.sdr12 && (sf.acc_mode_sdr12 && not d.sdr12)
offered v18 host sf d hs = true
offered v18 host sf d _ = false

abbrev pub rank : Timing → ℕ
rank uhs_sdr104 = 5
rank uhs_ddr50 = 4
rank uhs_sdr50 = 3
rank uhs_sdr25 = 2
rank uhs_sdr12 = 1
rank _ = 0

-- the fastest of the modes that are offered
abbrev pub Best : Bool → Host → SwitchFunc → SdModes → Timing → Type 0
Best v18 host sf d t =
    (offered v18 host sf d t ≡ true)
    × ((u : Timing) → offered v18 host sf d u ≡ true → rank u ≤ rank t)

fastest-offered :
    (v18 : Bool) (host : Host) (sf : SwitchFunc) (d : SdModes)
    → offered v18 host sf d (fastest_sd_mode v18 host sf d).timing ≡ true
unfolding fastest_sd_mode
fastest-offered v18 host sf d = ground arith

fastest-rank :
    (v18 : Bool) (host : Host) (sf : SwitchFunc) (d : SdModes) (u : Timing)
    → offered v18 host sf d u ≡ true
    → rank u ≤ rank (fastest_sd_mode v18 host sf d).timing
unfolding fastest_sd_mode
fastest-rank v18 host sf d uhs_sdr104 h = ground (arith, h)
fastest-rank v18 host sf d uhs_ddr50 h = ground (arith, h)
fastest-rank v18 host sf d uhs_sdr50 h = ground (arith, h)
fastest-rank v18 host sf d uhs_sdr25 h = ground (arith, h)
fastest-rank v18 host sf d uhs_sdr12 h = ground (arith, h)
fastest-rank v18 host sf d u h = omega arith

fastest-Best :
    (v18 : Bool) (host : Host) (sf : SwitchFunc) (d : SdModes)
    → Best v18 host sf d (fastest_sd_mode v18 host sf d).timing
fastest-Best v18 host sf d = (fastest-offered v18 host sf d, fastest-rank v18 host sf d)

abbrev bit : Bool → ℕ
bit b = if b then 1 else 0

-- the number of tuned modes that are not disabled
abbrev pub tuned_left : SdModes → ℕ
tuned_left d = bit (not d.sdr104) + bit (not d.ddr50) + bit (not d.sdr50)

disable-fewer :
    (v18 : Bool) (host : Host) (sf : SwitchFunc) (d : SdModes) (t : Timing)
    → offered v18 host sf d t ≡ true
    → needs_tuning host t ≡ true
    → tuned_left (disable_mode t d) < tuned_left d
disable-fewer v18 host sf d uhs_sdr104 h k = ground (arith, h)
disable-fewer v18 host sf d uhs_ddr50 h k = ground (arith, h)
disable-fewer v18 host sf d uhs_sdr50 h k = ground (arith, h)
disable-fewer v18 host sf d t h k = absurd (ground (arith, h, k))

-- A search that ended with a mode, or with an exception.
abbrev pub Selects : Bool → Host → SwitchFunc → Option Timing → Session → Type 0
Selects v18 host sf none s = ⊥
Selects v18 host sf (some t) s = Best v18 host sf s.disabled t

-- What is left of a search behind a round that tried the fastest mode.
behind_round :
    (v18 : Bool) (host : Host) (sf : SwitchFunc) (d : SdModes)
    (rest : Method Session (Option Timing)) (works : Bool)
    → ((s : Session) → tuned_left s.disabled < tuned_left d → Post (Selects v18 host sf) (rest s))
    → Leaves
        (Tried host d (fastest_sd_mode v18 host sf d).timing works)
        (Selects v18 host sf)
        (if works then pure (some (fastest_sd_mode v18 host sf d).timing) else rest)
behind_round v18 host sf d rest true k = pure-Leaves _ (λ s p.
    subst (λ x. Best v18 host sf x (fastest_sd_mode v18 host sf d).timing) (sym p)
      (fastest-Best v18 host sf d))
behind_round v18 host sf d rest false k = record { leave = λ s p. k s (fewer s p) }
  where
    fewer :
        (s : Session)
        → Tried host d (fastest_sd_mode v18 host sf d).timing false s
        → tuned_left s.disabled < tuned_left d
    fewer s p = rw (p.0) (disable-fewer v18 host sf d _ (fastest-offered v18 host sf d) p.1)

search_sd_mode-Post :
    (n : ℕ) (env : Env) (host : Host) (v18 b : Bool) (sf : SwitchFunc) (s : Session)
    → tuned_left s.disabled < n
    → Post (Selects v18 host sf) (search_sd_mode n env host v18 b sf s)
unfolding search_sd_mode
search_sd_mode-Post zero env host v18 b sf s h = absurd (omega arith)
search_sd_mode-Post (suc n) env host v18 b sf s h =
    (bind-Leaves
        (try_sd_mode-Leaves env host b sf s.disabled (fastest_sd_mode v18 host sf s.disabled))
        (λ works.
          behind_round v18 host sf s.disabled (search_sd_mode n env host v18 b sf) works
            (λ t k. search_sd_mode-Post n env host v18 b sf t (omega (arith, h, k))))).leave
      s refl

-- The search of `power_up_sd()` ends within four rounds, whatever the card and the controller answer:
-- it throws, or it selects the fastest of the modes that card, controller and voltage allow and that
-- are not disabled then.
pub search_sd_mode-Selects :
    (env : Env) (host : Host) (v18 b : Bool) (sf : SwitchFunc) (s : Session)
    → Post (Selects v18 host sf) (search_sd_mode search_rounds env host v18 b sf s)
search_sd_mode-Selects env host v18 b sf s =
    search_sd_mode-Post search_rounds env host v18 b sf s (four s.disabled)
  where
    four : (d : SdModes) → tuned_left d < 4
    four d = ground arith
