-- ===== src/Session/Poll.antt =====
-- exec_mmc_switch() of server/src/device-impl.h ends.
use emmc_driver.Base.{
  ℕ, zero, suc, ◌+◌, ◌≤◌, ◌≡◌, refl, sym, ap, Bool, true, false, ◌⊎◌, inl, inr, List, [], ◌∷◌,
  Outcome, arith, Method, ◌>>◌, if◌then◌else◌,
}
use emmc_driver.Mmc.{test_bit}
use emmc_driver.Cmd.{is_success, switch_error}
use emmc_driver.Session.{
  Action, sent, delay, Env, Session, act, with_cmd, cmd_exec, exec_arg, is_failed, mmc_status,
  rca_arg, pure,
}
use emmc_driver.Session.Post.{
  Post, Leaves, state-Leaves, weaken-Leaves, bind-Leaves, get-Leaves, pure-Leaves,
}
use emmc_driver.Session.Switch.{poll_result, poll_status, poll_loop, polls, exec_mmc_switch}

-- the number of commands that were sent
abbrev pub num_sent : List Action → ℕ
num_sent [] = 0
num_sent (sent c a ∷ l) = suc (num_sent l)
num_sent (a ∷ l) = num_sent l

-- Why the loop ends: an error, a failed switch, or a device that is ready for data.
abbrev pub Settled : Session → Type 0
Settled s = (is_failed s ≡ true) ⊎ ((switch_error s.cmd ≡ true) ⊎ (test_bit s.cmd.resp0 8 ≡ true))

-- as many commands were sent
abbrev Sent : ℕ → Session → Type 0
Sent k s = num_sent s.log ≡ k

abbrev Polled : ℕ → Bool → Session → Type 0
Polled k stop s = Sent k s × (stop ≡ true → Settled s)

post-if :
    {A : Type 0} (Q : A → Session → Type 0) (b : Bool) (r t : Session × Outcome A)
    → (b ≡ true → Post Q r)
    → (b ≡ false → Post Q t)
    → Post Q (if b then r else t)
post-if Q true r t hr ht = hr refl
post-if Q false r t hr ht = ht refl

status-Leaves : (k : ℕ) → Leaves (Sent k) (Polled k) (mmc_status 8)
unfolding mmc_status
status-Leaves k = record {
  leave = λ s p.
      post-if (Polled k) s.cmd.flags.has_r1_response _ _ (λ e. (p, λ r. inr (inr r))) (λ e. tt);
}

result-Leaves : (k : ℕ) → Leaves (Sent k) (Polled k) poll_result
unfolding poll_result
result-Leaves k = record {
  leave = λ s p.
      post-if (Polled k) (is_failed s) _ _ (λ e. (p, λ r. inl e))
        (λ e.
          post-if (Polled k) (switch_error s.cmd) _ _ (λ d. (p, λ r. inr (inl d)))
            (λ d. (status-Leaves k).leave s p));
}

exec_arg-Leaves : (env : Env) (k c a : ℕ) → Leaves (Sent k) (λ u. Sent (suc k)) (exec_arg env c a)
unfolding exec_arg cmd_exec
exec_arg-Leaves env k c a = state-Leaves (λ s p. ap suc p)

poll_status-Leaves : (env : Env) (k : ℕ) → Leaves (Sent k) (Polled (suc k)) (poll_status env)
unfolding poll_status
poll_status-Leaves env k = record {
  leave = λ s p.
      (bind-Leaves (exec_arg-Leaves env k _ (rca_arg s)) (λ u. result-Leaves (suc k))).leave s p;
}

-- behind at most `n` polls
abbrev Behind : ℕ → ℕ → Session → Type 0
Behind k n s = (num_sent s.log ≤ k + n) × (Settled s ⊎ Sent (k + n) s)

settled_now : (k n : ℕ) (s : Session) → Polled (suc k) true s → Behind k (suc n) s
settled_now k n s p = (omega (arith, p.0), inl (p.1 refl))

later : (k n : ℕ) (s : Session) → Behind (suc k) n s → Behind k (suc n) s
later k n s (b, inl h) = (omega (arith, b), inl h)
later k n s (b, inr h) = (omega (arith, b), inr (omega (arith, h)))

poll_on :
    (k n : ℕ) (rest : Method Session (Unit {0})) (stop : Bool)
    → Leaves (Sent (suc k)) (λ u. Behind (suc k) n) rest
    → Leaves
        (Polled (suc k) stop)
        (λ u. Behind k (suc n))
        (if stop then pure tt else (act (delay 1) >> rest))
poll_on k n rest true h = pure-Leaves tt (settled_now k n)
poll_on k n rest false h =
    bind-Leaves {R = λ u. Sent (suc k)} {m = act (delay 1)} (state-Leaves (λ s p. p.0))
      (λ u. weaken-Leaves (λ u. later k n) h)

poll_loop-Leaves : (n : ℕ) (env : Env) (k : ℕ) → Leaves (Sent k) (λ u. Behind k n) (poll_loop n env)
unfolding poll_loop
poll_loop-Leaves zero env k = pure-Leaves tt (λ s p. (omega (arith, p), inr (omega (arith, p))))
poll_loop-Leaves (suc n) env k =
    bind-Leaves (poll_status-Leaves env k)
      (λ stop. poll_on k n (poll_loop n env) stop (poll_loop-Leaves n env (suc k)))

-- Where the command was not successful it is the only one; else the polls have come to an end.
abbrev pub Switched : ℕ → Session → Type 0
Switched k s =
    ((num_sent s.log ≡ suc k) × (is_success s.cmd.status ≡ false))
    ⊎ ((num_sent s.log ≤ k + 51) × (Settled s ⊎ (num_sent s.log ≡ k + 51)))

polled : (k : ℕ) (s : Session) → Behind (suc k) polls s → Switched k s
polled k s (b, inl h) = inr (omega (arith, b), inl h)
polled k s (b, inr h) = inr (omega (arith, b), inr (omega (arith, h)))

switch_on :
    (env : Env) (k : ℕ) (ok : Bool)
    → Leaves
        (λ s. Sent (suc k) s × (ok ≡ is_success s.cmd.status))
        (λ u. Switched k)
        (if ok then poll_loop polls env else pure tt)
switch_on env k true = record {
  leave = λ s p. (weaken-Leaves (λ u. polled k) (poll_loop-Leaves polls env (suc k))).leave s p.0;
}
switch_on env k false = pure-Leaves tt (λ s p. inl (p.0, sym p.1))

switch-Leaves :
    (env : Env) (k idx val : ℕ) (st : Bool)
    → Leaves (Sent k) (λ u. Switched k) (exec_mmc_switch env idx val st)
unfolding exec_mmc_switch cmd_exec
switch-Leaves env k idx val st =
    bind-Leaves {R = λ u. Sent k} {m = with_cmd _} (state-Leaves (λ s p. p)) (λ u.
      bind-Leaves {R = λ u. Sent (suc k)} {m = cmd_exec env} (state-Leaves (λ s p. ap suc p))
        (λ u. bind-Leaves (get-Leaves (λ s. is_success s.cmd.status)) (λ ok. switch_on env k ok)))

-- `exec_mmc_switch()` ends after 51 commands at the latest, whatever the device answers. Unless it
-- throws, the switch command alone was sent and was not successful, or the status shows an error, a
-- failed switch or a device that is ready for data, or all 50 polls were made in vain.
pub exec_mmc_switch_lem :
    (env : Env) (idx val : ℕ) (with_status : Bool) (s : Session)
    → Post (λ u. Switched (num_sent s.log)) (exec_mmc_switch env idx val with_status s)
exec_mmc_switch_lem env idx val with_status s =
    (switch-Leaves env (num_sent s.log) idx val with_status).leave s refl
