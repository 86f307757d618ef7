-- ===== src/CmdQueue/Retire.antt =====
-- `cmd->work_done(); cmd->destruct();` of server/src/device-impl.h: how the device gives up a command,
-- in inout_data() on an exception, and in handle_irq_inout() at the end of a request. As the two
-- calls stand together everywhere, no context stays finished between two requests.
use mathlib.Core.Path.{subst}
use emmc_driver.Base.{
  ℕ, ◌+◌, ◌<◌, ◌≡◌, sym, ap, false, List, set, length-set, get_or-set_self, get_or-set_ne, ◌∙◌, ◌≢◌,
  [], ◌∷◌, some, done, throws, einval, arith, length, bind_done,
}
use emmc_driver.Cmd.{Cmd, error, invalidate}
use emmc_driver.CmdQueue.{
  CmdQueue, wrap_around, cmd_at, set_enqueued, working, is_working, cmd_work_done, destruct, retire,
}
use emmc_driver.CmdQueue.Inv.{Inv, dist, worked, worked-Inv, destructed, destruct_lem, destruct-Inv}
use emmc_driver.CmdQueue.Fifo.{finished, active, length-slots, slots_first}

idle_pos : {q : CmdQueue} → Inv q → finished q ≡ [] → q.destruct_pos ≡ q.working_pos
idle_pos {q} v idle =
    omega (arith, ap length idle, length-slots q.destruct_pos (dist q.destruct_pos q.working_pos))

pub working_pos-eq :
    (q : CmdQueue) (i : ℕ)
    → working q ≡ some i
    → (i ≡ q.working_pos) × (q.working_pos ≢ q.create_pos)
unfolding working
working_pos-eq q i h = ground arith

-- the queue without its current command
abbrev retired : CmdQueue → CmdQueue
retired q = destructed (worked q)

cmd_work_done-eq :
    (q : CmdQueue)
    → q.working_pos ≢ q.create_pos
    → cmd_work_done q.working_pos q ≡ (worked q, done tt)
unfolding cmd_work_done is_working
cmd_work_done-eq q work = ground arith

destruct-worked-eq :
    {q : CmdQueue}
    → Inv q
    → q.destruct_pos ≡ q.working_pos
    → q.working_pos ≢ q.create_pos
    → destruct q.working_pos (worked q) ≡ (retired q, done tt)
destruct-worked-eq {q} v idle work =
    subst (λ i. destruct i (worked q) ≡ (retired q, done tt)) idle
      (destruct_lem (worked-Inv v work) (omega arith))

retire-eq :
    {q : CmdQueue}
    → Inv q
    → q.destruct_pos ≡ q.working_pos
    → q.working_pos ≢ q.create_pos
    → retire q.working_pos q ≡ (retired q, done tt)
unfolding retire
retire-eq {q} v idle work =
    bind_done (cmd_work_done q.working_pos) (λ _. destruct q.working_pos) (cmd_work_done-eq q work)
    ∙ destruct-worked-eq v idle work

retired-Inv :
    {q : CmdQueue}
    → Inv q
    → q.destruct_pos ≡ q.working_pos
    → q.working_pos ≢ q.create_pos
    → Inv (retired q)
retired-Inv {q} v idle work =
    subst Inv (ap (λ r. r.0) (destruct_lem w (omega arith))) (destruct-Inv w (omega arith))
  where
    w : Inv (worked q)
    w = worked-Inv v work

-- Giving up the current command leaves a valid queue without it, where no command is finished.
pub retire_lem :
    {q : CmdQueue} (i : ℕ)
    → Inv q
    → finished q ≡ []
    → working q ≡ some i
    → let (q', r) = retire i q in
      Inv q' × (r ≡ done tt) × (active q ≡ i ∷ active q') × (finished q' ≡ [])
retire_lem {q} i v idle cur = ground (
  arith,
  idle_pos v idle,
  working_pos-eq q i cur,
  retire-eq v,
  retired-Inv v,
  slots_first q.working_pos (wrap_around (q.working_pos + 1)) (dist q.working_pos q.create_pos)
      (dist (wrap_around (q.working_pos + 1)) q.create_pos) v.working_lt,
)

-- Giving up the current command invalidates it, and leaves the others.
pub retire-cmd :
    {q : CmdQueue} (i : ℕ)
    → Inv q
    → finished q ≡ []
    → working q ≡ some i
    → ((cmd_at (retire i q).0 i).status ≡ error)
      × ((j : ℕ) → i ≢ j → cmd_at (retire i q).0 j ≡ cmd_at q j)
unfolding invalidate
retire-cmd {q} i v idle cur =
    subst (λ r. ((cmd_at r.0 i).status ≡ error) × ((j : ℕ) → i ≢ j → cmd_at r.0 j ≡ cmd_at q j))
      (sym (ap (λ k. retire k q) at ∙ retire-eq v pos (working_pos-eq q i cur).1))
      (retired-at, retired-others)
  where
    pos : q.destruct_pos ≡ q.working_pos
    pos = idle_pos v idle

    at : i ≡ q.working_pos
    at = (working_pos-eq q i cur).0

    cleared : List Cmd
    cleared = set q.cmds q.destruct_pos (set_enqueued (cmd_at q q.destruct_pos) false)

    room : i < length cleared
    room = omega (
      arith,
      at,
      v.slots,
      v.working_lt,
      length-set q.cmds q.destruct_pos (set_enqueued (cmd_at q q.destruct_pos) false),
    )

    retired-at : (cmd_at (retired q) i).status ≡ error
    retired-at =
        subst (λ k. (cmd_at (retired q) k).status ≡ error) (pos ∙ sym at)
          (ap (λ x. x.status)
            (get_or-set_self cleared q.destruct_pos _ _ (omega (arith, room, at, pos))))

    retired-others : (j : ℕ) → i ≢ j → cmd_at (retired q) j ≡ cmd_at q j
    retired-others j n =
        get_or-set_ne cleared q.destruct_pos j _ _ (λ e. n (at ∙ sym pos ∙ e))
        ∙ get_or-set_ne q.cmds q.destruct_pos j _ _ (λ e. n (at ∙ sym pos ∙ e))

-- Giving up any other command throws, and changes nothing.
pub retire_disorder :
    {q : CmdQueue} (i : ℕ) → Inv q → working q ≢ some i → retire i q ≡ (q, throws einval)
unfolding retire cmd_work_done is_working working
retire_disorder {q} i v other = ground arith
