-- ===== src/Inout/Queue.antt =====
-- The command queue under inout_data() and handle_irq_inout().
use mathlib.Core.Path.{subst}
use emmc_driver.Base.{
  ℕ, ◌<◌, ◌≡◌, refl, sym, ap, ◌∙◌, ◌⊎◌, inl, inr, [], ◌∷◌, Option, none, some, done, bind_done,
  arith, Bool-cases,
}
use emmc_driver.Cmd.{Cmd, is_ready, reinit_inout_nodata, reinit_inout_data}
use emmc_driver.CmdQueue.{CmdQueue, cmd_at, put_cmd, working}
use emmc_driver.CmdQueue.Inv.{Inv, put_cmd-Inv}
use emmc_driver.CmdQueue.Fifo.{finished, active}
use emmc_driver.CmdQueue.Retire.{retire_lem, working_pos-eq}
use emmc_driver.Inout.{
  Conf, work_done, more_work, Reply, Handled, advance, start, transfer_block_sdma,
  handle_irq_inout_sdma, handle_irq_inout_adma2, next_block, restore_status, set_block_count_adma2,
}
use emmc_driver.Inout.Advance.{Consistent, advance-Consistent}
use emmc_driver.Inout.Device.{
  Dev, Submit, handle_request, submit_ready, cmd_queue_kick, log, store, handle_irq_inout,
}

-- The controller's driver leaves the flag `enqueued` to the queue.
abbrev pub KeepsEnqueued : Submit → Type 0
KeepsEnqueued submit = (c : Cmd) → (submit c).0.flags.enqueued ≡ c.flags.enqueued

-- A valid queue with no finished command, as it is between two calls.
pub record Valid (q : CmdQueue) : Type 0 where
  pub inv : Inv q
  pub idle : finished q ≡ []

transfer_block_sdma-enqueued :
    (cf : Conf) (c : Cmd) → (transfer_block_sdma cf c).0.flags.enqueued ≡ c.flags.enqueued
unfolding transfer_block_sdma reinit_inout_data reinit_inout_nodata
transfer_block_sdma-enqueued cf c = ground arith

next_block-enqueued : (c : Cmd) → (next_block c).flags.enqueued ≡ c.flags.enqueued
unfolding next_block
next_block-enqueued c = ground arith

pub advance-enqueued : (cf : Conf) (c : Cmd) → (advance cf c).0.flags.enqueued ≡ c.flags.enqueued
unfolding advance handle_irq_inout_sdma handle_irq_inout_adma2 reinit_inout_data reinit_inout_nodata
advance-enqueued cf c = ground (
  arith,
  next_block-enqueued (restore_status c),
  transfer_block_sdma-enqueued cf (next_block (restore_status c)),
  transfer_block_sdma-enqueued cf (restore_status c),
)

pub start-enqueued : (cf : Conf) (c : Cmd) → (start cf c).0.flags.enqueued ≡ c.flags.enqueued
unfolding start set_block_count_adma2 reinit_inout_data reinit_inout_nodata
start-enqueued cf c = ground (arith, transfer_block_sdma-enqueued cf c)

pub put_cmd-Valid :
    {q : CmdQueue} (i : ℕ) (c : Cmd)
    → Valid q
    → i < 32
    → c.flags.enqueued ≡ (cmd_at q i).flags.enqueued
    → Valid (put_cmd q i c)
put_cmd-Valid i c v lt e = record { inv = put_cmd-Inv i c v.inv lt e; idle = v.idle }

pub working_lt : {q : CmdQueue} {i : ℕ} → Valid q → working q ≡ some i → i < 32
working_lt {q} {i} v e = ground (arith, working_pos-eq q i e, v.inv.working_lt)

submit_ready_lem :
    (submit : Submit) (o : Option ℕ) (d : Dev)
    → KeepsEnqueued submit
    → Valid d.queue
    → working d.queue ≡ o
    → let (d', r) = submit_ready submit o d in
      Valid d'.queue × (active d'.queue ≡ active d.queue) × (d'.calls ≡ d.calls)
submit_ready_lem submit none d k v e = (v, refl, refl)
submit_ready_lem submit (some i) d k v e = elim (Bool-cases (is_ready (cmd_at d.queue i).status)) [
  | inl yes' ↦ rw yes' (
    put_cmd-Valid i (submit (cmd_at d.queue i)).0 v (working_lt v e) (k (cmd_at d.queue i)),
    refl,
    refl,
  )
  | inr no' ↦ rw no' (v, refl, refl)
]

pub kick_lem :
    (submit : Submit) (d : Dev)
    → KeepsEnqueued submit
    → Valid d.queue
    → let (d', r) = cmd_queue_kick submit d in
      Valid d'.queue × (active d'.queue ≡ active d.queue) × (d'.calls ≡ d.calls)
unfolding cmd_queue_kick
kick_lem submit d k v = submit_ready_lem submit (working d.queue) d k v refl

-- Either the request goes on, or it has left the queue and its callback was called once.
abbrev pub Step : ℕ → ℕ → Dev → Dev → Type 0
Step i cb d d' =
    Valid d'.queue
    × (((active d'.queue ≡ active d.queue) × (d'.calls ≡ d.calls))
        ⊎ ((r : Reply) × (active d.queue ≡ i ∷ active d'.queue) × (d'.calls ≡ (cb, r) ∷ d.calls)))

pub store_lem :
    (i cb : ℕ) (h : Handled) (d : Dev)
    → Consistent h
    → h.0.flags.enqueued ≡ (cmd_at d.queue i).flags.enqueued
    → Valid d.queue
    → working d.queue ≡ some i
    → let (d', r) = store i cb h d in (r ≡ done tt) × Step i cb d d'
unfolding working
store_lem i cb (c, none, work_done) d k e v w = absurd (k refl)
store_lem i cb (c, some r, work_done) d k e v w =
    let (inv, ok, act, idle) =
      retire_lem {q = put_cmd d.queue i c} i (put_cmd-Valid i c v (working_lt v w) e).inv v.idle
        w in
    (ok, (record { inv = inv; idle = idle }, inr (r, act, refl)))
store_lem i cb (c, r, more_work) d k e v w =
    (refl, (put_cmd-Valid i c v (working_lt v w) e, inl (refl, ap (λ r. log cb r d.calls) k.0)))

Step-kick :
    (i cb : ℕ) (submit : Submit) (d d' : Dev)
    → KeepsEnqueued submit
    → Step i cb d d'
    → Step i cb d (cmd_queue_kick submit d').0
Step-kick i cb submit d d' k (v, inl (a, c)) =
    let (v', a', c') = kick_lem submit d' k v in (v', inl (a' ∙ a, c' ∙ c))
Step-kick i cb submit d d' k (v, inr (r, a, c)) =
    let (v', a', c') = kick_lem submit d' k v in (v', inr (r, a ∙ ap (λ x. i ∷ x) (sym a'), c' ∙ c))

request-eq :
    (cf : Conf) (submit : Submit) (i cb : ℕ) (d : Dev)
    → Valid d.queue
    → working d.queue ≡ some i
    → handle_request cf submit i (some cb) d
      ≡ cmd_queue_kick submit (store i cb (advance cf (cmd_at d.queue i)) d).0
request-eq cf submit i cb d v w =
    bind_done (store i cb h) (λ _. cmd_queue_kick submit) (ap (λ o. ((store i cb h d).0, o)) ok)
  where
    h : Handled
    h = advance cf (cmd_at d.queue i)

    ok : (store i cb h d).1 ≡ done tt
    ok =
        (store_lem i cb h d (advance-Consistent cf (cmd_at d.queue i))
          (advance-enqueued cf (cmd_at d.queue i)) v w).0

request-Step :
    (cf : Conf) (submit : Submit) (i cb : ℕ) (d : Dev)
    → KeepsEnqueued submit
    → Valid d.queue
    → working d.queue ≡ some i
    → Step i cb d (handle_request cf submit i (some cb) d).0
request-Step cf submit i cb d k v w =
    subst (λ r. Step i cb d r.0) (sym (request-eq cf submit i cb d v w))
      (Step-kick i cb submit d (store i cb h d).0 k
        (store_lem i cb h d (advance-Consistent cf (cmd_at d.queue i))
          (advance-enqueued cf (cmd_at d.queue i)) v w).1)
  where
    h : Handled
    h = advance cf (cmd_at d.queue i)

-- Where `handle_irq_inout()` is given the current command, with a callback, of a valid queue, the
-- queue stays valid, also where submitting the next command throws; either the queue has the same
-- commands and no callback was called, or that command has left the queue and its callback was
-- called once.
pub handle_irq_inout_lem :
    (cf : Conf) (submit : Submit) (i cb : ℕ) (d : Dev)
    → KeepsEnqueued submit
    → Valid d.queue
    → working d.queue ≡ some i
    → (cmd_at d.queue i).cb_io ≡ some cb
    → Step i cb d (handle_irq_inout cf submit i d).0
unfolding handle_irq_inout
handle_irq_inout_lem cf submit i cb d k v w e =
    subst (λ o. Step i cb d (handle_request cf submit i o d).0) (sym e)
      (request-Step cf submit i cb d k v w)
