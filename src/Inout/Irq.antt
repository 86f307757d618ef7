-- ===== src/Inout/Irq.antt =====
-- handle_irq() of server/src/device-impl.h and cmd_queue_kick() of server/src/device.h with the
-- interrupt that they unmask: what the server does on each interrupt of the controller.
use emmc_driver.Base.{
  ℕ, ◌+◌, ◌%◌, ◌^◌, Bool, true, false, Option, none, some, einval, Outcome, done, throws, Method,
  continue, ◌>>◌, if◌then◌else◌,
}
use emmc_driver.Cmd.{Cmd, is_progress, is_ready}
use emmc_driver.CmdQueue.{CmdQueue, cmd_at, put_cmd, working}
use emmc_driver.Inout.{Conf, advance}
use emmc_driver.Inout.Device.{Dev, Submit, cmd_queue_kick, store}

-- `unmasked` says whether the next interrupt gets through; `stat_ints` is `_stat_ints`.
pub record Server : Type 0 where
  pub dev : Dev
  pub unmasked : Bool
  pub stat_ints : ℕ

-- What Drv::handle_irq() does to the command in progress. It returns that command, if there is one.
abbrev pub Interrupt : Type 0
Interrupt = Cmd → Cmd × Outcome (Unit {0})

abbrev pub on_dev : Method Dev (Unit {0}) → Method Server (Unit {0})
on_dev m s = let (d, r) = m s.dev in (record s { dev = d }, r)

abbrev pub unmask_interrupt : Method Server (Unit {0})
unmask_interrupt s = (record s { unmasked = true }, done tt)

-- The result of Drv::cmd_queue_kick()
abbrev pub ready_at : CmdQueue → Option ℕ → Bool
ready_at q none = false
ready_at q (some i) = is_ready (cmd_at q i).status

abbrev pub kicked : CmdQueue → Bool
kicked q = ready_at q (working q)

-- Device::cmd_queue_kick()
unfoldable pub kick_unmask : Submit → Method Server (Unit {0})
unfolding working
kick_unmask submit s =
    continue (on_dev (cmd_queue_kick submit) s)
      (λ _. if kicked s.dev.queue then unmask_interrupt else λ s'. (s', done tt))

-- Device::handle_irq_inout()
abbrev pub serve_request : Conf → Submit → ℕ → Option ℕ → Method Server (Unit {0})
serve_request cf submit i none s = (s, throws einval)
serve_request cf submit i (some cb) s =
    (on_dev (store i cb (advance cf (cmd_at s.dev.queue i))) >> kick_unmask submit) s

-- What follows Drv::handle_irq() on the command `i`.
abbrev pub serve_cmd : Conf → Submit → ℕ → Method Server (Unit {0})
serve_cmd cf submit i s =
    if is_progress (cmd_at s.dev.queue i).status
    then unmask_interrupt s
    else if (cmd_at s.dev.queue i).flags.inout
    then serve_request cf submit i (cmd_at s.dev.queue i).cb_io s
    else kick_unmask submit s

abbrev pub serve : Conf → Submit → Interrupt → Option ℕ → Method Server (Unit {0})
serve cf submit irq none s = (s, done tt)
serve cf submit irq (some i) s =
    let (c, r) = irq (cmd_at s.dev.queue i) in
    continue (record s { dev = record (s.dev) { queue = put_cmd s.dev.queue i c } }, r)
      (λ _. serve_cmd cf submit i)

-- An interrupt is masked when it arrives. Exceptions are caught: only the state is left.
unfoldable pub handle_irq : Conf → Submit → Interrupt → Server → Server
unfolding working
handle_irq cf submit irq s =
    (serve cf submit irq (working s.dev.queue)
      (record s { unmasked = false; stat_ints = (s.stat_ints + 1) % 2 ^ 64 })).0
