-- ===== src/CmdQueue.antt =====
-- server/src/cmd.h, class Cmd_queue, and the methods of class Cmd that go through it (cmd.cc):
-- 32 contexts in a ring, created, worked on and destroyed in order. A pointer to a context is its
-- index; every context of the ring has its `queue` set, so `Cmd::nr()` is that index.
pub mod Inv
pub mod Fifo
pub mod Retire
mod Tests
use emmc_driver.Base.{
  ℕ, zero, suc, ◌+◌, ◌%◌, Bool, true, false, List, Option, none, some, Outcome, done, throws,
  einval, Method, ◌>>=◌, ◌>>◌, ◌==◌, if◌then◌else◌, get_or, set, replicate,
}
use emmc_driver.Cmd.{Cmd, Flags, uninitialized, blank, invalidate}

abbrev pub entries : ℕ
entries = 32

-- `create_pos`, `working_pos` and `destruct_pos` are `_create`, `_working` and `_destruct`.
pub record CmdQueue : Type 0 where
  pub cmds : List Cmd
  pub create_pos : ℕ
  pub working_pos : ℕ
  pub destruct_pos : ℕ

abbrev pub wrap_around : ℕ → ℕ
wrap_around i = i % entries

abbrev pub cmd_at : CmdQueue → ℕ → Cmd
cmd_at q i = get_or q.cmds i blank

abbrev pub put_cmd : CmdQueue → ℕ → Cmd → CmdQueue
put_cmd q i c = record q { cmds = set q.cmds i c }

abbrev pub set_enqueued : Cmd → Bool → Cmd
set_enqueued c b = record c { flags = record (c.flags) { enqueued = b } }

unfoldable pub init : CmdQueue
init = record { cmds = replicate entries blank; create_pos = 0; working_pos = 0; destruct_pos = 0 }

abbrev pub is_full : CmdQueue → Bool
is_full q = wrap_around (q.create_pos + 1) == q.destruct_pos

-- `_create` has moved on when a context that is still enqueued makes the call throw.
unfoldable pub create : Method CmdQueue (Option ℕ)
create q =
    if is_full q
    then (q, done none)
    else if (cmd_at q q.create_pos).flags.enqueued
    then (moved, throws einval)
    else (put_cmd moved q.create_pos made, done (some q.create_pos))
  where
    moved : CmdQueue
    moved = record q { create_pos = wrap_around (q.create_pos + 1) }

    made : Cmd
    made = record (set_enqueued (cmd_at q q.create_pos) true) { status = uninitialized }

unfoldable pub working : CmdQueue → Option ℕ
working q = if q.working_pos == q.create_pos then none else some q.working_pos

-- The loop of num_work(), with fuel for its rounds.
num_work_from : ℕ → ℕ → ℕ → ℕ → Option ℕ
num_work_from zero w c cnt = none
num_work_from (suc fuel) w c cnt =
    let rest = num_work_from fuel (wrap_around (w + 1)) c (cnt + 1) in
    if w == c then some cnt else rest

pub num_work : CmdQueue → Option ℕ
num_work q = num_work_from entries q.working_pos q.create_pos 0

pub is_working : CmdQueue → ℕ → Bool
is_working q i = if q.working_pos == q.create_pos then false else q.working_pos == i

unfoldable pub cmd_work_done : ℕ → Method CmdQueue (Unit {0})
cmd_work_done i q =
    if is_working q i
    then (record q { working_pos = wrap_around (q.working_pos + 1) }, done tt)
    else (q, throws einval)

-- The flag of the given context is cleared before the second test.
unfoldable pub cmd_destruct : ℕ → Method CmdQueue (Unit {0})
cmd_destruct i q =
    if (cmd_at q i).flags.enqueued
    then if q.destruct_pos == q.working_pos
      then (cleared, throws einval)
      else (record cleared { destruct_pos = wrap_around (q.destruct_pos + 1) }, done tt)
    else (q, throws einval)
  where
    cleared : CmdQueue
    cleared = put_cmd q i (set_enqueued (cmd_at q i) false)

pub invalidate_cmd : ℕ → Method CmdQueue (Unit {0})
invalidate_cmd i q = (put_cmd q i (invalidate (cmd_at q i)), done tt)

-- Cmd::destruct()
unfoldable pub destruct : ℕ → Method CmdQueue (Unit {0})
destruct i = do cmd_destruct i; invalidate_cmd i

-- `cmd->work_done(); cmd->destruct();`, with which the device gives up a command
unfoldable pub retire : ℕ → Method CmdQueue (Unit {0})
retire i = do cmd_work_done i; destruct i
