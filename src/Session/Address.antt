-- ===== src/Session/Address.antt =====
-- The address of the device in the commands of server/src/device-impl.h: `_rca` once it is 0.
use emmc_driver.Base.{
  ℕ, zero, suc, ◌≡◌, refl, sym, Bool, true, false, not, ◌&&◌, ◌||◌, List, [], ◌∷◌, Outcome, done,
  throws, arith, Method, ◌>>=◌, ◌>>◌, ◌==◌, if◌then◌else◌, continue,
}
use mathlib.Core.Path.{subst}
use emmc_driver.Mmc.{
  cmd3_set_relative_addr, cmd7_select_card, cmd9_send_csd, cmd13_send_status, cmd6_switch,
}
use emmc_driver.Cmd.{Cmd, init_arg, init_data, is_success}
use emmc_driver.Session.{
  Action, sent, delay, Env, Session, act, set_up, get, with_cmd, pure, cmd_exec, exec_arg,
  exec_data, init_data_io, check_error, mmc_status, rca_arg,
}
use emmc_driver.Session.Keep.{
  Keeps, keep_rules, bind-Keeps, if-Keeps, pure-Keeps, get-Keeps, then-Keeps,
}
use emmc_driver.Session.Switch.{
  poll_result, poll_status, poll_loop, polls, mark_status, switch_arg, exec_mmc_switch,
}

-- the commands that carry the address of the device
abbrev pub is_addressed : ℕ → Bool
is_addressed c =
    c == cmd3_set_relative_addr
    || (c == cmd7_select_card || (c == cmd9_send_csd || c == cmd13_send_status))

abbrev pub is_unaddressed : ℕ → ℕ → Bool
is_unaddressed c a = not (is_addressed c) || a == 0

-- whether each of these commands was sent with the address 0
abbrev pub no_address : List Action → Bool
no_address [] = true
no_address (sent c a ∷ l) = is_unaddressed c a && no_address l
no_address (a ∷ l) = no_address l

abbrev pub NoAddress : Session → Type 0
NoAddress s = (s.rca ≡ 0) × (no_address s.log ≡ true)

-- with a command that may be sent
abbrev Ready : Session → Type 0
Ready s = NoAddress s × (is_unaddressed s.cmd.cmd s.cmd.arg ≡ true)

-- a step that sets up a command that may be sent
pub record Readies {A : Type 0} (m : Method Session A) : Type 0 where
  pub ready : (s : Session) → NoAddress s → Ready (m s).0

send-NoAddress : (env : Env) (s : Session) → Ready s → NoAddress (cmd_exec env s).0
unfolding cmd_exec
send-NoAddress env s (p, h) = (p.0, rw (h) p.1)

execute :
    {A : Type 0} (env : Env) (r : Session × Outcome A)
    → Ready r.0
    → NoAddress (continue r (λ u. cmd_exec env)).0
execute env (s, done a) p = send-NoAddress env s p
execute env (s, throws e) p = p.0

pub sent-Keeps :
    {A : Type 0} {m : Method Session A} (env : Env)
    → Readies m
    → Keeps NoAddress (m >> cmd_exec env)
sent-Keeps {m = m} env h = record { keep = λ s p. execute env (m s) (h.ready s p) }

abbrev is_step : Action → Bool
is_step (sent c a) = false
is_step a = true

step : (a : Action) (l : List Action) → is_step a ≡ true → no_address (a ∷ l) ≡ no_address l
step (sent c n) l h = absurd (ground arith)
step a l h = refl

pub set_up-Keeps : (env : Env) (a : Action) → is_step a ≡ true → Keeps NoAddress (set_up env a)
set_up-Keeps env a h = record { keep = λ s p. (p.0, rw (step a s.log h) p.1) }

pub act-Keeps : (a : Action) → is_step a ≡ true → Keeps NoAddress (act a)
act-Keeps a h = record { keep = λ s p. (p.0, rw (step a s.log h) p.1) }

pub check_error-Keeps : Keeps NoAddress check_error
unfolding check_error
check_error-Keeps = record { keep = λ s p. ground (arith, p) }

pub mmc_status-Keeps : (k : ℕ) → Keeps NoAddress (mmc_status k)
unfolding mmc_status
mmc_status-Keeps k = record { keep = λ s p. ground (arith, p) }

-- Where the address is 0, so is the argument that is made of it.
pub rca-Keeps :
    {A : Type 0} (k : ℕ → Method Session A)
    → Keeps NoAddress (k 0)
    → Keeps NoAddress (get rca_arg >>= k)
rca-Keeps k h = record {
  keep = λ s p. subst (λ r. NoAddress (k r s).0) (sym (rw (p.0) refl)) (h.keep s p);
}

pub exec_arg-Keeps :
    (env : Env) (c a : ℕ) → is_unaddressed c a ≡ true → Keeps NoAddress (exec_arg env c a)
unfolding exec_arg init_arg
exec_arg-Keeps env c a h =
    sent-Keeps {m = with_cmd (λ x. init_arg x c a)} env (record { ready = λ s p. (p, h) })

init_data_lem :
    (c : Cmd) (cmd_val a n p v : ℕ)
    → ((init_data c cmd_val a n p v).0.cmd ≡ cmd_val) × ((init_data c cmd_val a n p v).0.arg ≡ a)
unfolding init_data
init_data_lem c cmd_val a n p v = (ground arith, ground arith)

pub exec_data-Keeps :
    (env : Env) (c a n : ℕ) → is_unaddressed c a ≡ true → Keeps NoAddress (exec_data env c a n)
unfolding exec_data init_data_io
exec_data-Keeps env c a n h = sent-Keeps {m = init_data_io env c a n} env (record {
  ready = λ s p.
      let e = init_data_lem s.cmd c a n env.buffer_phys env.buffer_virt in (p, rw (e.0, e.1) h);
})

poll_result-Keeps : Keeps NoAddress poll_result
unfolding poll_result mmc_status
poll_result-Keeps = record { keep = λ s p. ground (arith, p) }

poll_status-Keeps : (env : Env) → Keeps NoAddress (poll_status env)
unfolding poll_status
poll_status-Keeps env = record {
  keep = λ s p.
      (rca-Keeps (λ r. exec_arg env cmd13_send_status r >> poll_result)
          (then-Keeps (exec_arg-Keeps env _ 0 refl) poll_result-Keeps)).keep
        s p;
}

poll_loop-Keeps : (n : ℕ) (env : Env) → Keeps NoAddress (poll_loop n env)
unfolding poll_loop
poll_loop-Keeps zero env = pure-Keeps tt
poll_loop-Keeps (suc n) env = bind-Keeps (poll_status-Keeps env) (λ stop.
    if-Keeps stop (pure-Keeps tt) (then-Keeps (act-Keeps (delay 1) refl) (poll_loop-Keeps n env)))

mark_lem :
    (b : Bool) (c : Cmd) (a : ℕ)
    → is_unaddressed
        (mark_status b (init_arg c cmd6_switch a)).cmd
        (mark_status b (init_arg c cmd6_switch a)).arg
      ≡ true
unfolding init_arg
mark_lem true c a = refl
mark_lem false c a = refl

pub switch-Keeps :
    (env : Env) (idx val : ℕ) (st : Bool) → Keeps NoAddress (exec_mmc_switch env idx val st)
unfolding exec_mmc_switch
switch-Keeps env idx val st = record {
  keep = λ s p.
      (bind-Keeps {m = with_cmd f >> cmd_exec env} {f = λ u. polled}
          (sent-Keeps {m = with_cmd f} env (record { ready = λ s p. (p, mark_lem st s.cmd _) }))
          (λ u. search (keep_rules, poll_loop-Keeps) depth 10)).keep
        s p;
}
  where
    f : Cmd → Cmd
    f c = mark_status st (init_arg c cmd6_switch (switch_arg idx val))

    polled : Method Session (Unit {0})
    polled =
        get (λ s. is_success s.cmd.status) >>= λ ok. if ok then poll_loop polls env else pure tt

pub ruleset address_rules = (
  keep_rules, act-Keeps, set_up-Keeps, check_error-Keeps, mmc_status-Keeps, exec_arg-Keeps,
  exec_data-Keeps, switch-Keeps,
)
