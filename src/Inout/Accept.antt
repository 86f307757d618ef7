-- ===== src/Inout/Accept.antt =====
-- The command queue under inout_data(): a request that is taken, and those that are refused.
use mathlib.Core.Path.{subst}
use emmc_driver.Base.{
  ℕ, ◌<◌, ◌≡◌, refl, sym, ap, ◌∙◌, ◌≢◌, inl, inr, Bool, true, false, List, [], ◌∷◌, ◌++◌, Option,
  none, some, Errno, einval, ebusy, Outcome, done, throws, continue, arith, length, get_or-set_self,
}
use emmc_driver.Cmd.{blank, Cmd, Block, init_inout, is_ready, reset}
use emmc_driver.CmdQueue.{CmdQueue, cmd_at, put_cmd, create, working}
use emmc_driver.CmdQueue.Inv.{create-Inv}
use emmc_driver.CmdQueue.Fifo.{active, create_refines}
use emmc_driver.CmdQueue.Retire.{retire_disorder, working_pos-eq}
use emmc_driver.Inout.{Conf, start, transfer_block_sdma}
use emmc_driver.Inout.Device.{
  Dev, Submit, submit_ready, cmd_queue_kick, oversized, set_callback, try_inout, catch_inout,
  inout_data,
}
use emmc_driver.Inout.Queue.{KeepsEnqueued, Valid, start-enqueued, put_cmd-Valid, kick_lem}

-- Submitting the current command of a queue does not throw, where that is ready.
abbrev pub Submits : Submit → CmdQueue → Type 0
Submits submit q =
    (i : ℕ)
    → working q ≡ some i
    → is_ready (cmd_at q i).status ≡ true
    → (submit (cmd_at q i)).1 ≡ done tt

submit_ready_done :
    (submit : Submit) (o : Option ℕ) (d : Dev)
    → Submits submit d.queue
    → working d.queue ≡ o
    → (submit_ready submit o d).1 ≡ done tt
submit_ready_done submit none d s w = refl
submit_ready_done submit (some i) d s w = ground (arith, s i w)

kick_done :
    (submit : Submit) (d : Dev) → Submits submit d.queue → (cmd_queue_kick submit d).1 ≡ done tt
unfolding cmd_queue_kick
kick_done submit d s = submit_ready_done submit (working d.queue) d s refl

start-none :
    (cf : Conf) (c : Cmd) (b : Block) (bs : List Block) → c.blocks ≡ b ∷ bs → (start cf c).1 ≡ none
unfolding start transfer_block_sdma
start-none cf c b bs e = ground arith

init_inout-enqueued :
    (c : Cmd) (sector : ℕ) (blocks : List Block) (cb : ℕ) (rd : Bool)
    → (init_inout c sector blocks (some cb) rd).flags.enqueued ≡ c.flags.enqueued
unfolding init_inout reset
init_inout-enqueued c sector blocks cb rd = refl

-- The device after the body of the `try`, but for the submission.
abbrev set_up : Conf → ℕ → ℕ → List Block → ℕ → Bool → Dev → Dev
set_up cf i sector blocks cb rd d = record {
  queue =
      put_cmd (set_callback i (some cb) d.queue) i
        (start cf (init_inout (cmd_at d.queue i) sector blocks (some cb) rd)).0;
  calls = d.calls;
}

try_inout-eq :
    (cf : Conf) (submit : Submit) (i sector cb : ℕ) (b : Block) (bs : List Block) (rd : Bool)
    (d : Dev)
    → oversized cf (b ∷ bs) ≡ false
    → try_inout cf submit i sector (b ∷ bs) cb rd d
      ≡ cmd_queue_kick submit (set_up cf i sector (b ∷ bs) cb rd d)
unfolding try_inout init_inout
try_inout-eq cf submit i sector cb b bs rd d o =
    rw (o, start-none cf (init_inout (cmd_at d.queue i) sector (b ∷ bs) (some cb) rd) b bs refl)
      refl

set_up-Valid :
    (cf : Conf) (i sector cb : ℕ) (blocks : List Block) (rd : Bool) (d : Dev)
    → i < 32
    → Valid d.queue
    → Valid (set_up cf i sector blocks cb rd d).queue
set_up-Valid cf i sector cb blocks rd d lt v =
    put_cmd-Valid i (start cf (init_inout (cmd_at d.queue i) sector blocks (some cb) rd)).0
      (put_cmd-Valid i c v lt refl) lt
      (start-enqueued cf (init_inout (cmd_at d.queue i) sector blocks (some cb) rd)
        ∙ init_inout-enqueued (cmd_at d.queue i) sector blocks cb rd
        ∙ sym (
            ap (λ x. x.flags.enqueued)
              (get_or-set_self d.queue.cmds i c blank (rw v.inv.slots lt))))
  where
    c : Cmd
    c = record (cmd_at d.queue i) { cb_io = some cb }

-- create() as inout_data() meets it.
pub created-Valid :
    {q : CmdQueue}
    → Valid q
    → length (active q) < 31
    → ((create q).1 ≡ done (some q.create_pos))
      × Valid (create q).0
      × (active (create q).0 ≡ active q ++ q.create_pos ∷ [])
created-Valid {q} v l = elim (create_refines v.inv) [
  | inl (full, r, e) ↦ absurd (ground (arith, full, v.idle))
  | inr (lt, r, f, a) ↦ (r, record { inv = create-Inv v.inv; idle = f ∙ v.idle }, a)
]

-- inout_data() where create() gives a slot
accepted-eq :
    (cf : Conf) (submit : Submit) (sector cb : ℕ) (blocks : List Block) (rd : Bool) (d : Dev)
    (i : ℕ)
    → (create d.queue).1 ≡ done (some i)
    → inout_data cf submit sector blocks cb rd d
      ≡ catch_inout submit i
          (try_inout cf submit i sector blocks cb rd (record d { queue = (create d.queue).0 }))
unfolding inout_data
accepted-eq cf submit sector cb blocks rd d i e = rw e refl

-- What a request that is taken leaves.
abbrev pub Taken : Dev → Dev × Outcome (Option Errno) → Type 0
Taken d (d', r) =
    (r ≡ done none)
    × Valid d'.queue
    × (active d'.queue ≡ active d.queue ++ d.queue.create_pos ∷ [])
    × (d'.calls ≡ d.calls)

done-Taken :
    (submit : Submit) (i : ℕ) (d : Dev) (r : Dev × Outcome (Unit {0}))
    → r.1 ≡ done tt
    → Valid r.0.queue
    → active r.0.queue ≡ active d.queue ++ d.queue.create_pos ∷ []
    → r.0.calls ≡ d.calls
    → Taken d (catch_inout submit i r)
done-Taken submit i d (d', done u) e v a c = (refl, v, a, c)
done-Taken submit i d (d', throws x) e v a c = cc

kicked-Taken :
    (submit : Submit) (d d' : Dev)
    → KeepsEnqueued submit
    → Submits submit d'.queue
    → Valid d'.queue
    → active d'.queue ≡ active d.queue ++ d.queue.create_pos ∷ []
    → d'.calls ≡ d.calls
    → Taken d (catch_inout submit d.queue.create_pos (cmd_queue_kick submit d'))
kicked-Taken submit d d' k s v a c =
    let (v', a', c') = kick_lem submit d' k v in
    done-Taken submit d.queue.create_pos d (cmd_queue_kick submit d') (kick_done submit d' s) v'
      (a' ∙ a) (c' ∙ c)

-- The queue before it is kicked, with the command of a request that was just set up.
abbrev pub set_up_queue : Conf → ℕ → ℕ → List Block → Bool → Dev → CmdQueue
set_up_queue cf sector cb blocks rd d =
    (set_up cf d.queue.create_pos sector blocks cb rd
      (record d { queue = (create d.queue).0 })).queue

-- A request with at least one block, none of which is larger than a segment may be, is taken by a
-- valid queue that has room, if submitting the command that is then the current one, where it is
-- ready, does not throw: 0 is returned, its slot is the last to be worked on, and no callback is
-- called.
pub inout_data_takes :
    (cf : Conf) (submit : Submit) (sector cb : ℕ) (b : Block) (bs : List Block) (rd : Bool)
    (d : Dev)
    → KeepsEnqueued submit
    → Submits submit (set_up_queue cf sector cb (b ∷ bs) rd d)
    → Valid d.queue
    → length (active d.queue) < 31
    → oversized cf (b ∷ bs) ≡ false
    → Taken d (inout_data cf submit sector (b ∷ bs) cb rd d)
inout_data_takes cf submit sector cb b bs rd d k s v l o =
    let (r, vq, a) = created-Valid v l in
    subst (λ x. Taken d x)
      (sym (
        accepted-eq cf submit sector cb (b ∷ bs) rd d d.queue.create_pos r
        ∙ ap (catch_inout submit d.queue.create_pos)
            (try_inout-eq cf submit d.queue.create_pos sector cb b bs rd c o)))
      (kicked-Taken submit d (set_up cf d.queue.create_pos sector (b ∷ bs) cb rd c) k s
        (set_up-Valid cf d.queue.create_pos sector cb (b ∷ bs) rd c v.inv.create_lt vq) a refl)
  where
    c : Dev
    c = record d { queue = (create d.queue).0 }

-- A valid queue with 31 commands refuses every request with EBUSY, and nothing changes.
pub inout_data_busy :
    (cf : Conf) (submit : Submit) (sector cb : ℕ) (blocks : List Block) (rd : Bool) (d : Dev)
    → Valid d.queue
    → length (active d.queue) ≡ 31
    → inout_data cf submit sector blocks cb rd d ≡ (d, done (some ebusy))
unfolding inout_data
inout_data_busy cf submit sector cb blocks rd d v l = elim (create_refines v.inv) [
  | inl (full, r, e) ↦ rw (r, e) refl
  | inr (lt, r, f, a) ↦ absurd (ground (arith, lt, v.idle))
]

pub create-working_pos : (q : CmdQueue) → (create q).0.working_pos ≡ q.working_pos
unfolding create
create-working_pos q = ground arith

-- Behind other commands, a new one is not the current one.
behind_others :
    (q : CmdQueue) (i cb : ℕ)
    → Valid q
    → 0 < length (active q)
    → working (set_callback i (some cb) (create q).0) ≢ some q.create_pos
behind_others q i cb v busy h = ground (
  arith,
  busy,
  create-working_pos q,
  working_pos-eq (set_callback i (some cb) (create q).0) q.create_pos h,
  v.inv.working_lt,
)

oversized-eq :
    (cf : Conf) (submit : Submit) (i sector cb : ℕ) (blocks : List Block) (rd : Bool) (d : Dev)
    → oversized cf blocks ≡ true
    → try_inout cf submit i sector blocks cb rd d
      ≡ (record d { queue = set_callback i (some cb) d.queue }, throws einval)
unfolding try_inout
oversized-eq cf submit i sector cb blocks rd d o = rw o refl

-- A request with an oversized segment that comes while another command is worked on and the queue
-- has room for one more: inout_data() does not return EINVAL but throws, for its `catch` gives up
-- the new command out of its turn; the new command stays in the queue.
pub inout_data_leaks :
    (cf : Conf) (submit : Submit) (sector cb : ℕ) (blocks : List Block) (rd : Bool) (d : Dev)
    → Valid d.queue
    → length (active d.queue) < 31
    → 0 < length (active d.queue)
    → oversized cf blocks ≡ true
    → let (d', r) = inout_data cf submit sector blocks cb rd d in
      (r ≡ throws einval) × (active d'.queue ≡ active d.queue ++ d.queue.create_pos ∷ [])
inout_data_leaks cf submit sector cb blocks rd d v l busy o =
    let (r, vq, a) = created-Valid v l in
    subst (λ x. (x.1 ≡ throws einval) × (active x.0.queue ≡ active d.queue ++ n ∷ []))
      (sym (
        accepted-eq cf submit sector cb blocks rd d n r
        ∙ ap (catch_inout submit n) (oversized-eq cf submit n sector cb blocks rd c o)
        ∙ ap
            (λ x.
              continue (continue (record c { queue = x.0 }, x.1) (λ _. cmd_queue_kick submit))
                (λ _ d'. (d', done (some einval))))
            (retire_disorder n
              (put_cmd-Valid n (record (cmd_at c.queue n) { cb_io = some cb }) vq v.inv.create_lt
                refl).inv
              (behind_others d.queue n cb v busy))))
      (refl, a)
  where
    n : ℕ
    n = d.queue.create_pos

    c : Dev
    c = record d { queue = (create d.queue).0 }
