-- ===== src/Flush.antt =====
-- Device::flush() of server/src/device-impl.h: the cache of a device is flushed by a command that is
-- waited for. The command is the one in a slot of the queue.
pub mod Ends
mod Tests
use emmc_driver.Base.{
  ℕ, ◌+◌, Bool, true, false, not, Option, none, some, Errno, einval, ebusy, Outcome, done, throws,
  Method, continue, ◌>>◌, if◌then◌else◌,
}
use emmc_driver.CmdQueue.{CmdQueue, cmd_at, put_cmd, create, retire}
use emmc_driver.Session.{Env, Session, check_error}
use emmc_driver.Session.Switch.{exec_mmc_switch}

-- `calls` counts the calls of the callback, which are all told L4_EOK and 0 bytes.
pub record Flush : Type 0 where
  pub queue : CmdQueue
  pub session : Session
  pub calls : ℕ

-- A step on the command of a slot.
abbrev pub in_slot : ℕ → Method Session (Unit {0}) → Method Flush (Unit {0})
in_slot i m f =
    let (s, r) = m (record (f.session) { cmd = cmd_at f.queue i }) in
    (record f { queue = put_cmd f.queue i s.cmd; session = s }, r)

abbrev pub retire_slot : ℕ → Method Flush (Unit {0})
retire_slot i f = let (q, r) = retire i f.queue in (record f { queue = q }, r)

-- `FLUSH_CACHE` is byte 32 of EXT_CSD, and `flush` its bit 0.
abbrev pub switch_flush : Env → Method Session (Unit {0})
switch_flush env = do exec_mmc_switch env 32 1 true; check_error

-- the body of the `try`
unfoldable pub try_flush : Env → ℕ → Method Flush (Unit {0})
try_flush env i = do in_slot i (switch_flush env); retire_slot i

abbrev pub called : Flush → Flush
called f = record f { calls = f.calls + 1 }

-- The `catch`: what it throws itself leaves the function.
abbrev pub catch_flush : ℕ → Flush × Outcome (Unit {0}) → Flush × Outcome (Option Errno)
catch_flush i (f, done u) = (called f, done none)
catch_flush i (f, throws e) = continue (retire_slot i f) (λ u f'. (f', done (some einval)))

-- with what cmd_create() gave
abbrev pub flush_in : Env → Flush × Outcome (Option ℕ) → Flush × Outcome (Option Errno)
flush_in env (f, throws e) = (f, throws e)
flush_in env (f, done none) = (f, done (some ebusy))
flush_in env (f, done (some i)) = catch_flush i (try_flush env i f)

-- What is returned is the error code; `none` is `L4_EOK`.
unfoldable pub flush : Env → Bool → Method Flush (Option Errno)
flush env has_cache f =
    if not has_cache
    then (called f, done none)
    else flush_in env (record f { queue = (create f.queue).0 }, (create f.queue).1)
