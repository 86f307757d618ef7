-- ===== src/CmdQueue/Inv.antt =====
-- The invariant of Cmd_queue: the three positions follow one another round the ring, and exactly
-- the contexts from `_destruct` up to `_create` are enqueued.
use emmc_driver.Base.{
  ℕ, zero, suc, ◌+◌, ◌-◌, ◌%◌, ◌≤◌, ◌<◌, ◌≡◌, refl, ◌∙◌, ◌≢◌, inl, inr, true, false, none, some,
  done, arith, ltb, if◌then◌else◌, length, get_or, replicate, length-set, get_or-set, Bool-cases,
  bind_done,
}
use emmc_driver.Cmd.{Cmd, blank, uninitialized, invalidate, reset}
use emmc_driver.CmdQueue.{
  CmdQueue, wrap_around, cmd_at, put_cmd, set_enqueued, is_full, init, create, is_working,
  cmd_work_done, cmd_destruct, destruct, invalidate_cmd,
}

-- steps from `a` on to `b`, round the ring
abbrev pub dist : ℕ → ℕ → ℕ
dist a b = (b + 32 - a) % 32

pub record Inv (q : CmdQueue) : Type 0 where
  pub slots : length q.cmds ≡ 32
  pub create_lt : q.create_pos < 32
  pub working_lt : q.working_pos < 32
  pub destruct_lt : q.destruct_pos < 32
  pub ordered : dist q.destruct_pos q.working_pos ≤ dist q.destruct_pos q.create_pos
  pub marked :
      (i : ℕ)
      → i < 32
      → (cmd_at q i).flags.enqueued ≡ ltb (dist q.destruct_pos i) (dist q.destruct_pos q.create_pos)

get_or-replicate-blank : (n i : ℕ) → get_or (replicate n blank) i blank ≡ blank
get_or-replicate-blank zero i = refl
get_or-replicate-blank (suc n) zero = refl
get_or-replicate-blank (suc n) (suc i) = get_or-replicate-blank n i

pub init-Inv : Inv init
unfolding init
init-Inv = record {
  slots = refl;
  create_lt = omega arith;
  working_lt = omega arith;
  destruct_lt = omega arith;
  ordered = omega arith;
  marked = λ i h. ground (arith, get_or-replicate-blank 32 i);
}

-- The queue after a context was handed out.
abbrev pub created : CmdQueue → CmdQueue
created q =
    record (put_cmd q q.create_pos
      (record (set_enqueued (cmd_at q q.create_pos) true) { status = uninitialized })) {
        create_pos = wrap_around (q.create_pos + 1);
      }

-- On a valid queue create() never finds a context that was not destroyed.
pub create_lem :
    {q : CmdQueue}
    → Inv q
    → create q ≡ (if is_full q then (q, done none) else (created q, done (some q.create_pos)))
unfolding create
create_lem {q} v = ground (arith, v.marked q.create_pos)

created-marked :
    {q : CmdQueue} (i : ℕ)
    → Inv q
    → is_full q ≡ false
    → i < 32
    → (cmd_at (created q) i).flags.enqueued
      ≡ ltb (dist q.destruct_pos i) (dist q.destruct_pos (created q).create_pos)
created-marked {q} i v room h = ground (
  arith,
  v.marked i,
  get_or-set q.cmds q.create_pos i
      (record (set_enqueued (cmd_at q q.create_pos) true) { status = uninitialized }) blank,
)

created-Inv : {q : CmdQueue} → Inv q → is_full q ≡ false → Inv (created q)
created-Inv {q} v room = record {
  slots = length-set q.cmds _ _ ∙ v.slots;
  create_lt = omega arith;
  working_lt = v.working_lt;
  destruct_lt = v.destruct_lt;
  ordered = ground arith;
  marked = λ i h. created-marked i v room h;
}

-- `Cmd_queue::create()` keeps the invariant.
pub create-Inv : {q : CmdQueue} → Inv q → Inv (create q).0
create-Inv {q} v = rw (create_lem v) (elim (Bool-cases (is_full q)) [
  | inl full ↦ rw full v
  | inr room ↦ rw room (created-Inv v room)
])

-- The queue when its current command is done.
abbrev pub worked : CmdQueue → CmdQueue
worked q = record q { working_pos = wrap_around (q.working_pos + 1) }

pub worked-Inv : {q : CmdQueue} → Inv q → q.working_pos ≢ q.create_pos → Inv (worked q)
worked-Inv {q} v work = record {
  slots = v.slots;
  create_lt = v.create_lt;
  working_lt = omega arith;
  destruct_lt = v.destruct_lt;
  ordered = omega arith;
  marked = v.marked;
}

pub is_working-eq :
    (q : CmdQueue) (i : ℕ)
    → is_working q i ≡ true
    → (q.working_pos ≢ q.create_pos) × (i ≡ q.working_pos)
unfolding is_working
is_working-eq q i h = ground arith

-- `Cmd_queue::cmd_work_done()` keeps the invariant, whatever context it is given.
pub cmd_work_done-Inv : {q : CmdQueue} (i : ℕ) → Inv q → Inv (cmd_work_done i q).0
unfolding cmd_work_done
cmd_work_done-Inv {q} i v = elim (Bool-cases (is_working q i)) [
  | inl yes' ↦ rw yes' (worked-Inv v (is_working-eq q i yes').0)
  | inr no' ↦ rw no' v
]

-- The queue when the context at `_destruct` is destroyed.
abbrev pub destroyed : CmdQueue → CmdQueue
destroyed q = record (put_cmd q q.destruct_pos (set_enqueued (cmd_at q q.destruct_pos) false)) {
  destruct_pos = wrap_around (q.destruct_pos + 1);
}

destroyed-marked :
    {q : CmdQueue} (i : ℕ)
    → Inv q
    → q.destruct_pos ≢ q.working_pos
    → i < 32
    → (cmd_at (destroyed q) i).flags.enqueued
      ≡ ltb (dist (destroyed q).destruct_pos i) (dist (destroyed q).destruct_pos q.create_pos)
destroyed-marked {q} i v busy h = ground (
  arith,
  v.marked i,
  get_or-set q.cmds q.destruct_pos i (set_enqueued (cmd_at q q.destruct_pos) false) blank,
)

destroyed-Inv : {q : CmdQueue} → Inv q → q.destruct_pos ≢ q.working_pos → Inv (destroyed q)
destroyed-Inv {q} v busy = record {
  slots = length-set q.cmds _ _ ∙ v.slots;
  create_lt = v.create_lt;
  working_lt = v.working_lt;
  destruct_lt = omega arith;
  ordered = omega arith;
  marked = λ i h. destroyed-marked i v busy h;
}

-- Of the oldest context, where a finished one is left, cmd_destruct() never throws.
pub cmd_destruct_lem :
    {q : CmdQueue}
    → Inv q
    → q.destruct_pos ≢ q.working_pos
    → cmd_destruct q.destruct_pos q ≡ (destroyed q, done tt)
unfolding cmd_destruct
cmd_destruct_lem {q} v busy = ground (arith, v.marked q.destruct_pos)

-- Cmd::destruct() of the oldest finished context.
abbrev pub destructed : CmdQueue → CmdQueue
destructed q =
    put_cmd (destroyed q) q.destruct_pos (invalidate (cmd_at (destroyed q) q.destruct_pos))

pub destruct_lem :
    {q : CmdQueue}
    → Inv q
    → q.destruct_pos ≢ q.working_pos
    → destruct q.destruct_pos q ≡ (destructed q, done tt)
unfolding destruct invalidate_cmd
destruct_lem {q} v busy =
    bind_done (cmd_destruct q.destruct_pos) (λ _. invalidate_cmd q.destruct_pos)
      (cmd_destruct_lem v busy)

-- A write to a context that leaves its flag `enqueued` alone keeps the invariant.
pub put_cmd-Inv :
    {q : CmdQueue} (i : ℕ) (c : Cmd)
    → Inv q
    → i < 32
    → c.flags.enqueued ≡ (cmd_at q i).flags.enqueued
    → Inv (put_cmd q i c)
put_cmd-Inv {q} i c v h e = record {
  slots = length-set q.cmds _ _ ∙ v.slots;
  create_lt = v.create_lt;
  working_lt = v.working_lt;
  destruct_lt = v.destruct_lt;
  ordered = v.ordered;
  marked = λ j hj. ground (arith, v.marked j, get_or-set q.cmds i j c blank);
}

-- `Cmd::destruct()` of the oldest finished context keeps the invariant.
pub destruct-Inv :
    {q : CmdQueue} → Inv q → q.destruct_pos ≢ q.working_pos → Inv (destruct q.destruct_pos q).0
unfolding invalidate reset
destruct-Inv {q} v busy =
    rw (destruct_lem v busy)
      (put_cmd-Inv q.destruct_pos _ (destroyed-Inv v busy) v.destruct_lt refl)
