-- ===== src/Inout/Served.antt =====
-- handle_irq() of server/src/device-impl.h as a whole: the driver looks at the command, the request
-- goes on, and the interrupt is unmasked again where something is left to wait for.
use mathlib.Core.Path.{subst}
use emmc_driver.Base.{
  ℕ, ◌+◌, ◌%◌, ◌^◌, ◌≡◌, refl, sym, ap, ◌∙◌, ◌≢◌, inl, inr, false, Option, none, some, done,
  continue, arith, Bool-cases, bind_done, ◌⊎◌, ◌==◌,
}
use emmc_driver.Cmd.{Cmd, is_progress}
use emmc_driver.CmdQueue.{CmdQueue, cmd_at, put_cmd, working, retire}
use emmc_driver.CmdQueue.Retire.{retire-cmd, working_pos-eq}
use emmc_driver.Inout.{Conf, Handled, work_done, more_work, advance}
use emmc_driver.Inout.Advance.{Consistent, advance-Consistent}
use emmc_driver.Inout.Device.{Submit, Dev, store, cmd_queue_kick}
use emmc_driver.Inout.Queue.{
  Valid, KeepsEnqueued, put_cmd-Valid, working_lt, store_lem, advance-enqueued, kick_lem, Step,
}
use emmc_driver.Inout.Irq.{
  Server, Interrupt, kick_unmask, serve_request, serve_cmd, serve, handle_irq, on_dev,
}
use emmc_driver.Inout.Masks.{
  waits, waits_at, Quiet, Armed, Starts, working-put_cmd, put_cmd-Quiet, cmd_at-put_cmd,
  kick_unmask-Armed,
}

-- No command is in progress.
abbrev Idle : CmdQueue → Type 0
Idle q = (j : ℕ) → is_progress (cmd_at q j).status ≡ false

Idle-Quiet : (q : CmdQueue) → Idle q → (waits q ≡ false) × Quiet q
Idle-Quiet q idle = (at_most (working q), λ j _. idle j)
  where
    at_most : (o : Option ℕ) → waits_at q o ≡ false
    at_most none = refl
    at_most (some j) = idle j

same_or_other : (q : CmdQueue) (i j : ℕ) → working q ≡ some i → (i ≡ j) ⊎ (working q ≢ some j)
same_or_other q i j w = elim (Bool-cases (i == j)) [
  | inl yes' ↦ inl (ground arith)
  | inr no' ↦ inr (λ s. ground (arith, working_pos-eq q i w, working_pos-eq q j s))
]

-- Where the current command is not in progress, no command is.
Quiet-Idle :
    (q : CmdQueue) (i : ℕ)
    → working q ≡ some i
    → Quiet q
    → is_progress (cmd_at q i).status ≡ false
    → Idle q
Quiet-Idle q i w quiet e j = elim (same_or_other q i j w) [
  | inl same ↦ subst (λ k. is_progress (cmd_at q k).status ≡ false) same e
  | inr other ↦ quiet j other
]

retire-Idle : (q : CmdQueue) (i : ℕ) → Valid q → working q ≡ some i → Quiet q → Idle (retire i q).0
retire-Idle q i v w quiet j = elim (same_or_other q i j w) [
  | inl same ↦
      subst (λ k. is_progress (cmd_at (retire i q).0 k).status ≡ false) same
        (ap is_progress (retire-cmd i v.inv v.idle w).0)
  | inr other ↦
      ap (λ c. is_progress c.status)
        ((retire-cmd i v.inv v.idle w).1 j (λ s. other (w ∙ ap some s)))
      ∙ quiet j other
]

-- A request has no command in progress before the next one is submitted.
store-Idle :
    (i cb : ℕ) (h : Handled) (d : Dev)
    → Consistent h
    → h.0.flags.enqueued ≡ (cmd_at d.queue i).flags.enqueued
    → Valid d.queue
    → working d.queue ≡ some i
    → Quiet d.queue
    → Idle (store i cb h d).0.queue
store-Idle i cb (c, r, work_done) d k e v w quiet =
    retire-Idle (put_cmd d.queue i c) i (put_cmd-Valid i c v (working_lt v w) e)
      (working-put_cmd d.queue i c ∙ w) (put_cmd-Quiet d.queue i c w quiet)
store-Idle i cb (c, r, more_work) d k e v w quiet =
    Quiet-Idle (put_cmd d.queue i c) i (working-put_cmd d.queue i c ∙ w)
      (put_cmd-Quiet d.queue i c w quiet)
      (ap (λ x. is_progress x.status) (cmd_at-put_cmd i c v w) ∙ ap is_progress k.1)

-- What handle_irq() keeps, and when the interrupt gets through.
abbrev pub Served : Server → Type 0
Served s = Valid s.dev.queue × Armed s

kick_unmask-dev :
    (submit : Submit) (s : Server) → (kick_unmask submit s).0.dev ≡ (cmd_queue_kick submit s.dev).0
unfolding kick_unmask
kick_unmask-dev submit s = ground arith

kick_unmask-Served :
    (submit : Submit) (s : Server)
    → KeepsEnqueued submit
    → Starts submit
    → Valid s.dev.queue
    → s.unmasked ≡ false
    → Idle s.dev.queue
    → Served (kick_unmask submit s).0
kick_unmask-Served submit s ke st v m idle =
    let (w, quiet) = Idle-Quiet s.dev.queue idle in
    (
      subst (λ d. Valid d.queue) (sym (kick_unmask-dev submit s)) (kick_lem submit s.dev ke v).0,
      kick_unmask-Armed submit s st v m w quiet,
    )

serve_request-Served :
    (cf : Conf) (submit : Submit) (i : ℕ) (o : Option ℕ) (s : Server)
    → KeepsEnqueued submit
    → Starts submit
    → Valid s.dev.queue
    → working s.dev.queue ≡ some i
    → s.unmasked ≡ false
    → Quiet s.dev.queue
    → is_progress (cmd_at s.dev.queue i).status ≡ false
    → Served (serve_request cf submit i o s).0
serve_request-Served cf submit i none s ke st v w m quiet e =
    (v, (m ∙ sym (Idle-Quiet s.dev.queue (Quiet-Idle s.dev.queue i w quiet e)).0, quiet))
serve_request-Served cf submit i (some cb) s ke st v w m quiet e =
    subst (λ r. Served r.0)
      (sym (
        bind_done (on_dev (store i cb h)) (λ _. kick_unmask submit)
          (ap (λ o. (record s { dev = (store i cb h s.dev).0 }, o)) stored.0)))
      (kick_unmask-Served submit (record s { dev = (store i cb h s.dev).0 }) ke st stored.1.0 m
        (store-Idle i cb h s.dev consistent (advance-enqueued cf (cmd_at s.dev.queue i)) v w quiet))
  where
    h : Handled
    h = advance cf (cmd_at s.dev.queue i)

    consistent : Consistent h
    consistent = advance-Consistent cf (cmd_at s.dev.queue i)

    stored : ((store i cb h s.dev).1 ≡ done tt) × Step i cb s.dev (store i cb h s.dev).0
    stored = store_lem i cb h s.dev consistent (advance-enqueued cf (cmd_at s.dev.queue i)) v w

serve_cmd-Served :
    (cf : Conf) (submit : Submit) (i : ℕ) (s : Server)
    → KeepsEnqueued submit
    → Starts submit
    → Valid s.dev.queue
    → working s.dev.queue ≡ some i
    → s.unmasked ≡ false
    → Quiet s.dev.queue
    → Served (serve_cmd cf submit i s).0
serve_cmd-Served cf submit i s ke st v w m quiet =
    elim (Bool-cases (is_progress (cmd_at s.dev.queue i).status)) [
      | inl busy ↦ rw busy (v, (sym (ap (waits_at s.dev.queue) w ∙ busy), quiet))
      | inr settled ↦ elim (Bool-cases (cmd_at s.dev.queue i).flags.inout) [
        | inl request ↦
            rw (settled, request)
              (serve_request-Served cf submit i (cmd_at s.dev.queue i).cb_io s ke st v w m quiet
                settled)
        | inr other ↦
            rw (settled, other)
              (kick_unmask-Served submit s ke st v m (Quiet-Idle s.dev.queue i w quiet settled))
      ]
    ]

-- The driver's part leaves the flag `enqueued` to the queue, and throws no exception.
abbrev pub Handles : Interrupt → Type 0
Handles irq = (c : Cmd) → ((irq c).0.flags.enqueued ≡ c.flags.enqueued) × ((irq c).1 ≡ done tt)

serve-Served :
    (cf : Conf) (submit : Submit) (irq : Interrupt) (o : Option ℕ) (s : Server)
    → KeepsEnqueued submit
    → Starts submit
    → Handles irq
    → Valid s.dev.queue
    → working s.dev.queue ≡ o
    → s.unmasked ≡ false
    → Quiet s.dev.queue
    → Served (serve cf submit irq o s).0
serve-Served cf submit irq none s ke st hd v w m quiet =
    (v, (m ∙ sym (ap (waits_at s.dev.queue) w), quiet))
serve-Served cf submit irq (some i) s ke st hd v w m quiet =
    subst (λ r. Served (continue (put, r) (λ _. serve_cmd cf submit i)).0) (sym (hd cur).1)
      (serve_cmd-Served cf submit i put ke st
        (put_cmd-Valid i (irq cur).0 v (working_lt v w) (hd cur).0)
        (working-put_cmd s.dev.queue i (irq cur).0 ∙ w) m
        (put_cmd-Quiet s.dev.queue i (irq cur).0 w quiet))
  where
    cur : Cmd
    cur = cmd_at s.dev.queue i

    put : Server
    put = record s { dev = record (s.dev) { queue = put_cmd s.dev.queue i (irq cur).0 } }

-- Where `handle_irq()` runs on a valid queue in which no command but the current one is in
-- progress, the driver's part throws nothing and leaves the flag `enqueued` alone, and so does
-- submitting a command, which puts it in progress unless it throws: the queue stays valid, again no
-- command but the current one is in progress, and the interrupt is unmasked exactly where the
-- current command is in progress, also where submitting the next command throws or a request has
-- no callback.
pub handle_irq-Served :
    (cf : Conf) (submit : Submit) (irq : Interrupt) (s : Server)
    → KeepsEnqueued submit
    → Starts submit
    → Handles irq
    → Valid s.dev.queue
    → Quiet s.dev.queue
    → Served (handle_irq cf submit irq s)
unfolding handle_irq
handle_irq-Served cf submit irq s ke st hd v quiet =
    serve-Served cf submit irq (working s.dev.queue)
      (record s { unmasked = false; stat_ints = (s.stat_ints + 1) % 2 ^ 64 }) ke st hd v refl refl
      quiet
