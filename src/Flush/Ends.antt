-- ===== src/Flush/Ends.antt =====
-- How flush() of server/src/device-impl.h ends, when no other command is active and when one is.
use mathlib.Core.Path.{subst}
use mathlib.Core.List.{head?}
use emmc_driver.Base.{
  ℕ, zero, suc, ◌+◌, ◌<◌, ◌≡◌, refl, sym, ap, ◌∙◌, ◌≢◌, ◌⊎◌, inl, inr, Bool, true, false, List, [],
  ◌∷◌, ◌++◌, Option, none, some, Errno, einval, Outcome, done, throws, continue, arith, length,
  is_done,
}
use emmc_driver.Cmd.{Cmd, init_arg, reset}
use emmc_driver.CmdQueue.{CmdQueue, cmd_at, put_cmd, create, working, retire}
use emmc_driver.CmdQueue.Fifo.{active, working_refines}
use emmc_driver.CmdQueue.Retire.{retire_lem, retire_disorder, working_pos-eq}
use emmc_driver.Inout.Queue.{Valid, put_cmd-Valid}
use emmc_driver.Inout.Accept.{created-Valid, create-working_pos}
use emmc_driver.Session.{
  Action, delay, Env, Session, act, with_cmd, cmd_exec, exec_arg, check_error, mmc_status,
  is_failed,
}
use emmc_driver.Session.Keep.{Keeps, bind-Keeps, then-Keeps, if-Keeps, pure-Keeps, get-Keeps}
use emmc_driver.Session.Switch.{exec_mmc_switch, poll_loop, poll_status, poll_result, polls}
use emmc_driver.Flush.{Flush, retire_slot, switch_flush, try_flush, catch_flush, flush}

-- Executing a command does not change whether its slot is in use.
abbrev pub ExecKeeps : Env → Type 0
ExecKeeps env = (l : List Action) (c : Cmd) → (env.exec l c).0.flags.enqueued ≡ c.flags.enqueued

abbrev InUse : Bool → Session → Type 0
InUse b s = s.cmd.flags.enqueued ≡ b

module _ (env : Env) (k : ExecKeeps env) (b : Bool) where
  act-InUse : (a : Action) → Keeps (InUse b) (act a)
  act-InUse a = record { keep = λ s p. p }

  cmd_exec-InUse : Keeps (InUse b) (cmd_exec env)
  unfolding cmd_exec
  cmd_exec-InUse = record { keep = λ s p. k s.log s.cmd ∙ p }

  exec_arg-InUse : (c a : ℕ) → Keeps (InUse b) (exec_arg env c a)
  unfolding exec_arg init_arg reset
  exec_arg-InUse c a = then-Keeps {m = with_cmd _} (record { keep = λ s p. p }) cmd_exec-InUse

  mmc_status-InUse : (n : ℕ) → Keeps (InUse b) (mmc_status n)
  unfolding mmc_status
  mmc_status-InUse n = record { keep = λ s p. ground (arith, p) }

  poll_result-InUse : Keeps (InUse b) poll_result
  unfolding poll_result mmc_status
  poll_result-InUse = record { keep = λ s p. ground (arith, p) }

  poll_status-InUse : Keeps (InUse b) (poll_status env)
  unfolding poll_status
  poll_status-InUse = record {
    keep = λ s p. (then-Keeps (exec_arg-InUse _ _) poll_result-InUse).keep s p;
  }

  poll_loop-InUse : (n : ℕ) → Keeps (InUse b) (poll_loop n env)
  unfolding poll_loop
  poll_loop-InUse zero = pure-Keeps tt
  poll_loop-InUse (suc n) =
      bind-Keeps poll_status-InUse (λ stop.
        if-Keeps stop (pure-Keeps tt) (then-Keeps (act-InUse (delay 1)) (poll_loop-InUse n)))

  marked-InUse : (idx val : ℕ) → Keeps (InUse b) (exec_mmc_switch env idx val true)
  unfolding exec_mmc_switch init_arg reset
  marked-InUse idx val =
      then-Keeps {m = with_cmd _} (record { keep = λ s p. p })
        (then-Keeps cmd_exec-InUse
          (bind-Keeps (get-Keeps _) (λ ok. if-Keeps ok (poll_loop-InUse polls) (pure-Keeps tt))))

  switch_flush-InUse : Keeps (InUse b) (switch_flush env)
  unfolding check_error
  switch_flush-InUse = then-Keeps (marked-InUse 32 1) (record { keep = λ s p. ground (arith, p) })

-- the slot of a command that was just created, and the queue with it
abbrev slot : Flush → ℕ
slot f = f.queue.create_pos

abbrev created : Flush → Flush
created f = record f { queue = (create f.queue).0 }

-- The session and the outcome of the command in the slot.
abbrev run : Env → Flush → Session × Outcome (Unit {0})
run env f = switch_flush env (record (f.session) { cmd = cmd_at (create f.queue).0 (slot f) })

abbrev switched : Env → Flush → Flush
switched env f = record f {
  queue = put_cmd (create f.queue).0 (slot f) (run env f).0.cmd;
  session = (run env f).0;
}

switched-Valid :
    (env : Env) (f : Flush)
    → ExecKeeps env
    → Valid f.queue
    → Valid (create f.queue).0
    → Valid (switched env f).queue
switched-Valid env f k v w = put_cmd-Valid (slot f) (run env f).0.cmd w v.inv.create_lt (
    (switch_flush-InUse env k (cmd_at (create f.queue).0 (slot f)).flags.enqueued).keep
      (record (f.session) { cmd = cmd_at (create f.queue).0 (slot f) }) refl)

flush-eq :
    (env : Env) (f : Flush)
    → (create f.queue).1 ≡ done (some (slot f))
    → flush env true f
      ≡ catch_flush (slot f) (continue (switched env f, (run env f).1) (λ u. retire_slot (slot f)))
unfolding flush try_flush
flush-eq env f e = rw e refl

-- The callback is called and 0 is returned for a command without an error, or EINVAL is returned.
abbrev pub Told : Flush → Flush → Outcome (Option Errno) → Type 0
Told f f' r =
    ((r ≡ done none) × (f'.calls ≡ f.calls + 1) × (is_failed f'.session ≡ false))
    ⊎ ((r ≡ done (some einval)) × (f'.calls ≡ f.calls))

-- In any case, no command stays in the queue.
abbrev pub Ended : Flush → Flush × Outcome (Option Errno) → Type 0
Ended f (f', r) = Valid f'.queue × (active f'.queue ≡ []) × Told f f' r

check_error_done :
    (s : Session) → is_done (check_error s).1 ≡ true → is_failed (check_error s).0 ≡ false
unfolding check_error
check_error_done s h = ground (arith, h)

checked :
    (r : Session × Outcome (Unit {0}))
    → is_done (continue r (λ u. check_error)).1 ≡ true
    → is_failed (continue r (λ u. check_error)).0 ≡ false
checked (s, done u) h = check_error_done s h
checked (s, throws e) h = absurd (ground arith)

emptied :
    {q : CmdQueue} (i : ℕ)
    → Valid q
    → active q ≡ i ∷ []
    → let (q', r) = retire i q in Valid q' × (active q' ≡ []) × (r ≡ done tt)
emptied {q} i v a =
    let (inv, ok, act, idle) = retire_lem i v.inv v.idle (working_refines v.inv ∙ ap head? a) in
    (record { inv = inv; idle = idle }, cc, ok)

given_up :
    (f g : Flush) (i : ℕ) (o : Outcome (Unit {0}))
    → g.calls ≡ f.calls
    → Valid g.queue
    → active g.queue ≡ i ∷ []
    → (is_done o ≡ true → is_failed g.session ≡ false)
    → Ended f (catch_flush i (continue (g, o) (λ u. retire_slot i)))
given_up f g i (done u) c v a h =
    let (w, e, ok) = emptied i v a in rw ok (w, e, inl (refl, ap (λ n. n + 1) c, h refl))
given_up f g i (throws x) c v a h = let (w, e, ok) = emptied i v a in rw ok (w, e, inr (refl, c))

-- For a device with a cache: where no command is active, `flush()` ends, also where the command or a
-- poll throws: either the callback is called once and 0 is returned, for a command that left no
-- error, or EINVAL is returned and no callback is called; and the slot of the command is given up.
pub flush_lem :
    (env : Env) (f : Flush)
    → ExecKeeps env
    → Valid f.queue
    → active f.queue ≡ []
    → Ended f (flush env true f)
flush_lem env f k v a =
    let (r, w, b) = created-Valid v (omega (arith, ap length a)) in
    subst (Ended f) (sym (flush-eq env f r)) (
      given_up f (switched env f) (slot f) (run env f).1 refl (switched-Valid env f k v w)
        (b ∙ ap (λ l. l ++ slot f ∷ []) a)
        (checked (
          exec_mmc_switch env 32 1 true
            (record (f.session) { cmd = cmd_at (create f.queue).0 (slot f) }))))

refused_again :
    (g : Flush) (i : ℕ) (x : Errno)
    → retire i g.queue ≡ (g.queue, throws einval)
    → catch_flush i (g, throws x) ≡ (g, throws einval)
refused_again g i x e = rw e refl

out_of_turn :
    (g : Flush) (i : ℕ) (o : Outcome (Unit {0}))
    → retire i g.queue ≡ (g.queue, throws einval)
    → catch_flush i (continue (g, o) (λ u. retire_slot i)) ≡ (g, throws einval)
out_of_turn g i (done u) e = rw e (refused_again g i einval e)
out_of_turn g i (throws x) e = refused_again g i x e

behind_others :
    (env : Env) (f : Flush)
    → Valid f.queue
    → 0 < length (active f.queue)
    → working (switched env f).queue ≢ some (slot f)
behind_others env f v busy h = ground (
  arith,
  busy,
  create-working_pos f.queue,
  working_pos-eq (switched env f).queue (slot f) h,
  v.inv.working_lt,
)

-- For a device with a cache: while another command is active and there is room for one more,
-- `flush()` never succeeds, whatever the device answers: it throws, for its `catch` gives up the new command out of its turn, no
-- callback is called, and the new command stays in the queue.
pub flush_leaks :
    (env : Env) (f : Flush)
    → ExecKeeps env
    → Valid f.queue
    → 0 < length (active f.queue)
    → length (active f.queue) < 31
    → let (f', r) = flush env true f in
      (r ≡ throws einval)
      × (f'.calls ≡ f.calls)
      × (active f'.queue ≡ active f.queue ++ f.queue.create_pos ∷ [])
flush_leaks env f k v busy l =
    let (r, w, b) = created-Valid v l in
    subst
      (λ x.
        (x.1 ≡ throws einval)
        × (x.0.calls ≡ f.calls)
        × (active x.0.queue ≡ active f.queue ++ f.queue.create_pos ∷ []))
      (sym (
        flush-eq env f r
        ∙ out_of_turn (switched env f) (slot f) (run env f).1 (
            retire_disorder (slot f) (switched-Valid env f k v w).inv
              (behind_others env f v busy))))
      (refl, refl, b)
