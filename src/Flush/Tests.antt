-- ===== src/Flush/Tests.antt =====
-- The theorems on flush() at a device that is ready at the first poll.
use emmc_driver.Base.{
  ◌≡◌, refl, true, false, [], ◌∷◌, ◌++◌, some, einval, done, throws, arith, length,
}
use emmc_driver.Cmd.{blank, success, blank}
use emmc_driver.CmdQueue.{CmdQueue, create, cmd_work_done, cmd_destruct, is_working}
use emmc_driver.CmdQueue as CmdQueue
use emmc_driver.CmdQueue.Inv.{init-Inv, create-Inv}
use emmc_driver.CmdQueue.Fifo.{active}
use emmc_driver.Inout.Queue.{Valid}
use emmc_driver.Session.{Env}
use emmc_driver.Flush.{Flush, flush}
use emmc_driver.Flush.Ends.{ExecKeeps, Ended, flush_lem, flush_leaks}

abbrev ready_device : Env
ready_device = record {
  exec = λ l c. (
    record c {
      status = success;
      resp0 = 0x900;
      flags = record (c.flags) { has_r1_response = true };
    },
    done tt,
  );
  card_busy = λ l. false;
  sets_up = λ l. done tt;
  tuning_finished = λ l. some true;
  buffer = λ l. [];
  buffer_phys = 0x10000;
  buffer_virt = 0x20000;
}

ready-ExecKeeps : ExecKeeps ready_device
ready-ExecKeeps l c = refl

abbrev with_queue : CmdQueue → Flush
with_queue q = record {
  queue = q;
  session = record {
    cmd = blank;
    log = [];
    rca = 1;
    addr_mult = 0;
    num_sectors = 0;
    has_cmd23 = false;
    disabled = record {
      sdr12 = false;
      sdr25 = false;
      sdr50 = false;
      sdr104 = false;
      ddr50 = false;
    };
  };
  calls = 0;
}

abbrev idle : Flush
idle = with_queue CmdQueue.init

-- another command waits
abbrev busy : Flush
busy = with_queue (create CmdQueue.init).0

idle-Valid : Valid idle.queue
unfolding CmdQueue.init
idle-Valid = record { inv = init-Inv; idle = refl }

busy-Valid : Valid busy.queue
unfolding CmdQueue.init create
busy-Valid = record { inv = create-Inv init-Inv; idle = refl }

idle_active : active idle.queue ≡ []
unfolding CmdQueue.init
idle_active = refl

busy_active : length (active busy.queue) ≡ 1
unfolding CmdQueue.init create
busy_active = refl

flush_lem_example : Ended idle (flush ready_device true idle)
flush_lem_example = flush_lem ready_device idle ready-ExecKeeps idle-Valid idle_active

flush_leaks_example :
    let (f', r) = flush ready_device true busy in
    (r ≡ throws einval)
    × (f'.calls ≡ 0)
    × (active f'.queue ≡ active busy.queue ++ busy.queue.create_pos ∷ [])
flush_leaks_example =
    flush_leaks ready_device busy ready-ExecKeeps busy-Valid (omega (arith, busy_active))
      (omega (arith, busy_active))
