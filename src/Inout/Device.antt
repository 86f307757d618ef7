-- ===== src/Inout/Device.antt =====
-- inout_data() and handle_irq_inout() of server/src/device-impl.h on the whole command queue, with
-- the calls of callbacks that they make.
use emmc_driver.Base.{
  ℕ, ◌*◌, ◌%◌, ◌^◌, Bool, false, ◌||◌, List, [], ◌∷◌, Option, none, some, Errno, einval, ebusy,
  Outcome, done, throws, Method, continue, ◌>>◌, ltb, if◌then◌else◌,
}
use emmc_driver.Cmd.{Cmd, Block, is_ready, init_inout}
use emmc_driver.CmdQueue.{CmdQueue, cmd_at, put_cmd, create, working, retire}
use emmc_driver.Inout.{Conf, work_done, more_work, Reply, Handled, advance, start}

-- The device as far as requests are concerned: its command queue, and the calls of callbacks so
-- far, the latest first.
pub record Dev : Type 0 where
  pub queue : CmdQueue
  pub calls : List (ℕ × Reply)

-- What Drv::cmd_submit_on_avail() does to a command.
abbrev pub Submit : Type 0
Submit = Cmd → Cmd × Outcome (Unit {0})

-- A command that is not ready is left alone.
abbrev pub submit_ready : Submit → Option ℕ → Method Dev (Unit {0})
submit_ready submit none d = (d, done tt)
submit_ready submit (some i) d =
    let (c, r) = submit (cmd_at d.queue i) in
    if is_ready (cmd_at d.queue i).status
    then (record d { queue = put_cmd d.queue i c }, r)
    else (d, done tt)

-- Device::cmd_queue_kick() with Drv::cmd_queue_kick(), without the interrupt that it unmasks
unfoldable pub cmd_queue_kick : Submit → Method Dev (Unit {0})
cmd_queue_kick submit d = submit_ready submit (working d.queue) d

abbrev pub on_queue : Method CmdQueue (Unit {0}) → Method Dev (Unit {0})
on_queue m d = let (q, r) = m d.queue in (record d { queue = q }, r)

abbrev pub log : ℕ → Option Reply → List (ℕ × Reply) → List (ℕ × Reply)
log cb none calls = calls
log cb (some r) calls = (cb, r) ∷ calls

-- A handled command is stored, and given up where its work is done.
abbrev pub store : ℕ → ℕ → Handled → Method Dev (Unit {0})
store i cb (c, r, work_done) d =
    on_queue (retire i) (record { queue = put_cmd d.queue i c; calls = log cb r d.calls })
store i cb (c, r, more_work) d =
    (record { queue = put_cmd d.queue i c; calls = log cb r d.calls }, done tt)

-- The request of a command with its callback.
abbrev pub handle_request : Conf → Submit → ℕ → Option ℕ → Method Dev (Unit {0})
handle_request cf submit i none d = (d, throws einval)
handle_request cf submit i (some cb) d =
    (store i cb (advance cf (cmd_at d.queue i)) >> cmd_queue_kick submit) d

unfoldable pub handle_irq_inout : Conf → Submit → ℕ → Method Dev (Unit {0})
handle_irq_inout cf submit i d = handle_request cf submit i (cmd_at d.queue i).cb_io d

-- The test of the segment sizes, in 64 bits.
unfoldable pub oversized : Conf → List Block → Bool
oversized cf [] = false
oversized cf (b ∷ bs) = ltb cf.max_size ((b.num_sectors * 512) % 2 ^ 64) || oversized cf bs

abbrev pub set_callback : ℕ → Option ℕ → CmdQueue → CmdQueue
set_callback i cb q = put_cmd q i (record (cmd_at q i) { cb_io = cb })

-- The body of the `try` of inout_data().
unfoldable pub try_inout : Conf → Submit → ℕ → ℕ → List Block → ℕ → Bool → Method Dev (Unit {0})
try_inout cf submit i sector blocks cb rd d =
    if oversized cf blocks
    then (record d { queue = set_callback i (some cb) d.queue }, throws einval)
    else (store i cb (h.0, h.1, more_work) >> cmd_queue_kick submit)
        (record d { queue = set_callback i (some cb) d.queue })
  where
    h : Handled
    h = start cf (init_inout (cmd_at d.queue i) sector blocks (some cb) rd)

-- The `catch` of inout_data(): what it throws itself leaves the function.
abbrev pub catch_inout : Submit → ℕ → Dev × Outcome (Unit {0}) → Dev × Outcome (Option Errno)
catch_inout submit i (d, done u) = (d, done none)
catch_inout submit i (d, throws e) =
    continue ((on_queue (retire i) >> cmd_queue_kick submit) d) (λ _ d'. (d', done (some einval)))

-- What is returned is the error code; `none` is `L4_EOK`.
unfoldable pub inout_data : Conf → Submit → ℕ → List Block → ℕ → Bool → Method Dev (Option Errno)
inout_data cf submit sector blocks cb rd d =
    continue (r.0, r.1)
      (λ o d'. elim o [
        | none ↦ (d', done (some ebusy))
        | some i ↦ catch_inout submit i (try_inout cf submit i sector blocks cb rd d')
      ])
  where
    r : Dev × Outcome (Option ℕ)
    r = let (q, o) = create d.queue in (record d { queue = q }, o)
