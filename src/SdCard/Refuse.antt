-- ===== src/SdCard/Refuse.antt =====
-- power_up_sd() of server/src/device-impl.h where there is no SD card.
use emmc_driver.Base.{ℕ, ◌≡◌, refl, Bool, ◌⊎◌, inl, inr, List, ◌∷◌, ◌>>=◌, ◌>>◌}
use emmc_driver.Mmc.{cmd55_app_cmd, acmd41_sd_app_op_cond}
use emmc_driver.Session.{
  Action, sent, Env, Session, cmd_exec, exec_arg, is_failed, pure, rca_arg, with_cmd,
}
use emmc_driver.Cmd.{init_arg, mark_app_cmd}
use emmc_driver.Session.Switch.{mmc_app_cmd}
use emmc_driver.Session.Post.{
  Post, Leaves, state-Leaves, bind-Leaves, get-Leaves, if-Leaves, pure-Leaves,
}
use emmc_driver.SdCard.{Host, set_rca}
use emmc_driver.SdCard.Select.{PowerUp, no_sd_card, selected, power_up_card, power_up_sd}

-- The session where the search for an SD card gave up: `_rca` is 0, and what was done is CMD55, and
-- ACMD41 behind it where the card accepted CMD55.
abbrev pub GaveUp : List Action → PowerUp → Session → Type 0
GaveUp l no_sd_card s =
    (s.rca ≡ 0)
    × ((s.log ≡ sent cmd55_app_cmd 0 ∷ l)
        ⊎ (s.log ≡ sent acmd41_sd_app_op_cond 0 ∷ sent cmd55_app_cmd 0 ∷ l))
GaveUp l (selected t) s = Unit {0}

-- what was done with the address 0
Did : List Action → Session → Type 0
Did l s = (s.rca ≡ 0) × (s.log ≡ l)

abbrev asked : List Action → List Action
asked l = sent cmd55_app_cmd 0 ∷ l

Asked : List Action → Session → Type 0
Asked l s = (s.rca ≡ 0) × ((s.log ≡ asked l) ⊎ (s.log ≡ sent acmd41_sd_app_op_cond 0 ∷ asked l))

cmd55-Leaves :
    (env : Env) (l : List Action) (rca : ℕ)
    → Leaves
        (λ s. Did l s × (rca ≡ rca_arg s))
        (λ u. Did (asked l))
        (exec_arg env cmd55_app_cmd rca)
unfolding exec_arg cmd_exec Did init_arg
cmd55-Leaves env l rca = state-Leaves (λ s p. (p.0.0, rw (p.1, p.0.0, p.0.1) refl))

acmd41-Leaves :
    (env : Env) (l : List Action) (failed : Bool)
    → Leaves
        (λ s. Did (asked l) s × (failed ≡ is_failed s))
        (λ u. Asked l)
        (with_cmd (λ c. init_arg c acmd41_sd_app_op_cond 0)
          >> (with_cmd mark_app_cmd >> cmd_exec env))
unfolding cmd_exec Did Asked init_arg mark_app_cmd
acmd41-Leaves env l failed = state-Leaves (λ s p. (p.0.0, inr (rw (p.0.1) refl)))

ask-Leaves :
    (env : Env) (l : List Action)
    → Leaves (Did l) (λ u. Asked l) (mmc_app_cmd env acmd41_sd_app_op_cond 0 0)
unfolding mmc_app_cmd Did Asked
ask-Leaves env l = bind-Leaves (get-Leaves rca_arg) (λ rca.
    bind-Leaves (cmd55-Leaves env l rca) (λ u. bind-Leaves (get-Leaves is_failed) (λ failed.
      if-Leaves failed (λ e. pure-Leaves tt (λ s p. (p.0.0, inl p.0.1)))
        (λ e. acmd41-Leaves env l failed))))

found-Leaves :
    (env : Env) (host : Host) (l : List Action) (resp : ℕ) {P : Session → Type 0}
    → Leaves P (GaveUp l) (power_up_card env host resp >>= λ t. pure (selected t))
found-Leaves env host l resp =
    bind-Leaves {R = λ t s. Unit {0}} {m = power_up_card env host resp} (state-Leaves (λ s p. tt))
      (λ t. pure-Leaves (selected t) (λ s p. tt))

pub power_up_sd-Leaves :
    (env : Env) (host : Host) (l : List Action)
    → Leaves (λ s. s.log ≡ l) (GaveUp l) (power_up_sd env host)
unfolding power_up_sd Did Asked
power_up_sd-Leaves env host l =
    bind-Leaves {R = λ u. Did l} {m = set_rca (λ s. 0)} (state-Leaves (λ s p. (refl, p))) (λ u.
      bind-Leaves (ask-Leaves env l) (λ u. bind-Leaves (get-Leaves is_failed) (λ failed.
        bind-Leaves (get-Leaves (λ s. s.cmd.resp0)) (λ resp.
          if-Leaves failed (λ e. pure-Leaves no_sd_card (λ s p. p.0.0))
            (λ e. found-Leaves env host l resp)))))

-- Where `power_up_sd()` finds no SD card, it sent CMD55 and ACMD41 at most, both with the argument 0,
-- did not touch clock, bus or voltage, and leaves 0 behind as address of the card.
pub power_up_sd-GaveUp :
    (env : Env) (host : Host) (s : Session) → Post (GaveUp s.log) (power_up_sd env host s)
power_up_sd-GaveUp env host s = (power_up_sd-Leaves env host s.log).leave s refl
