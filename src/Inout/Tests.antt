-- ===== src/Inout/Tests.antt =====
-- The theorems on requests at a read of three blocks.
use emmc_driver.Base.{
  ℕ, zero, suc, ◌+◌, ◌*◌, ◌<◌, ◌^◌, ◌≡◌, refl, Bool, not, ◌&&◌, true, false, List, [], ◌∷◌, ◌++◌,
  none, some, done, throws, einval, arith, length, get_or,
}
use emmc_driver.Cmd.{
  Cmd, is_progress, progress_cmd, Block, Status, blank, success, data_error, init_inout, reset,
  reinit_inout_data,
}
use emmc_driver.CmdQueue.{cmd_at, create, working}
use emmc_driver.CmdQueue as CmdQueue
use emmc_driver.CmdQueue.Inv.{Inv, init-Inv, create-Inv}
use emmc_driver.CmdQueue.Fifo.{finished, active}
use emmc_driver.Inout.{Conf, start, follow, transfer_block_sdma}
use emmc_driver.Inout.Advance.{settled, Ends, inout-Ends}
use emmc_driver.Inout.Commands.{commands, total, all_success}
use emmc_driver.Inout.Sdma.{inout_sdma_lem}
use emmc_driver.Inout.Adma.{adma2_commands, inout_adma2_lem}
use emmc_driver.Inout.Device.{
  Dev, Submit, inout_data, try_inout, cmd_queue_kick, handle_irq_inout, oversized,
}
use emmc_driver.Inout.Queue.{Valid, KeepsEnqueued, Step, handle_irq_inout_lem}
use emmc_driver.Inout.Irq.{Server, Interrupt, handle_irq}
use emmc_driver.Inout.Masks.{Quiet, Starts}
use emmc_driver.Inout.Served.{Served, Handles, handle_irq-Served}
use emmc_driver.Inout.Accept.{Submits, Taken, set_up_queue, inout_data_takes, inout_data_leaks}

abbrev card : Conf
card = record {
  has_cmd23 = false;
  auto_cmd23 = false;
  auto_cmd12 = false;
  dma_adma2 = false;
  addr_mult = 512;
  max_size = 65536;
}

abbrev adma_card : Conf
adma_card = record card { has_cmd23 = true; dma_adma2 = true; addr_mult = 1 }

abbrev block : ℕ → Block
block n = record { dma_addr = 4096 * n; virt_addr = 8192 * n; num_sectors = n }

abbrev rest : List Block
rest = block 0 ∷ block 1 ∷ []

-- the second command of a request fails
abbrev fails : ℕ → Status
fails zero = success
fails (suc n) = data_error

fails-settled : (n : ℕ) → settled (fails n) ≡ true
fails-settled zero = refl
fails-settled (suc n) = refl

inout-Ends_example :
    Ends 8 (follow 8 card fails (start card (init_inout blank 7 (block 8 ∷ rest) (some 3) true)))
inout-Ends_example = inout-Ends card fails blank 7 (block 8 ∷ rest) 3 true fails-settled

sum_lt : 7 + total (block 8 ∷ rest) < 2 ^ 32
unfolding total
sum_lt = omega arith

inout_sdma_lem_example :
    follow 7 card all_success (start card (init_inout blank 7 (block 8 ∷ rest) (some 3) true))
    ≡ some (
      commands card true 7 (block 8 ∷ rest),
      record { error_code = none; bytes = total (block 8 ∷ rest) * 512 } ∷ [],
    )
inout_sdma_lem_example =
    inout_sdma_lem 7 card blank 7 3 true (block 8) rest refl (λ e. omega (arith, e)) sum_lt
      (omega arith)

inout_adma2_lem_example :
    follow 3 adma_card all_success
      (start adma_card (init_inout blank 7 (block 8 ∷ rest) (some 3) false))
    ≡ some (
      adma2_commands adma_card false 7 (total (block 8 ∷ rest)),
      record { error_code = none; bytes = 0 } ∷ [],
    )
inout_adma2_lem_example = inout_adma2_lem adma_card blank 7 3 false (block 8 ∷ rest) refl sum_lt

abbrev accept : Submit
accept c = (c, done tt)

accept-KeepsEnqueued : KeepsEnqueued accept
accept-KeepsEnqueued c = refl

accept-Submits : (q : CmdQueue.CmdQueue) → Submits accept q
accept-Submits q i w r = refl

abbrev idle : Dev
idle = record { queue = CmdQueue.init; calls = [] }

idle_finished : finished CmdQueue.init ≡ []
unfolding CmdQueue.init
idle_finished = refl

idle_Valid : Valid CmdQueue.init
idle_Valid = record { inv = init-Inv; idle = idle_finished }

idle_room : length (active CmdQueue.init) < 31
unfolding CmdQueue.init
idle_room = omega arith

not_oversized : oversized card (block 8 ∷ rest) ≡ false
unfolding oversized
not_oversized = refl

-- the device with one request
abbrev busy : Dev
busy = (inout_data card accept 7 (block 8 ∷ rest) 3 true idle).0

busy_Taken : Taken idle (inout_data card accept 7 (block 8 ∷ rest) 3 true idle)
busy_Taken =
    inout_data_takes card accept 7 3 (block 8) rest true idle accept-KeepsEnqueued
      (accept-Submits (set_up_queue card 7 3 (block 8 ∷ rest) true idle)) idle_Valid idle_room
      not_oversized

busy_working : working busy.queue ≡ some 0
unfolding CmdQueue.init CmdQueue.create working inout_data try_inout cmd_queue_kick start init_inout
    oversized transfer_block_sdma reset
busy_working = refl

busy_callback : (cmd_at busy.queue 0).cb_io ≡ some 3
unfolding CmdQueue.init CmdQueue.create working inout_data try_inout cmd_queue_kick start init_inout
    oversized transfer_block_sdma reset reinit_inout_data
busy_callback = refl

handle_irq_inout_lem_example : Step 0 3 busy (handle_irq_inout card accept 0 busy).0
handle_irq_inout_lem_example =
    handle_irq_inout_lem card accept 0 3 busy accept-KeepsEnqueued busy_Taken.1 busy_working
      busy_callback

-- `n` more commands
abbrev fill : ℕ → CmdQueue.CmdQueue → CmdQueue.CmdQueue
fill zero q = q
fill (suc n) q = fill n (create q).0

fill-Inv : (n : ℕ) (q : CmdQueue.CmdQueue) → Inv q → Inv (fill n q)
fill-Inv zero q v = v
fill-Inv (suc n) q v = fill-Inv n (create q).0 (create-Inv v)

abbrev full : Dev
full = record { queue = fill 31 CmdQueue.init; calls = [] }

full_finished : finished full.queue ≡ []
unfolding CmdQueue.init CmdQueue.create
full_finished = refl

full_active : length (active full.queue) ≡ 31
unfolding CmdQueue.init CmdQueue.create
full_active = refl

full_Valid : Valid full.queue
full_Valid = record { inv = fill-Inv 31 CmdQueue.init init-Inv; idle = full_finished }

abbrev one : Dev
one = record { queue = fill 1 CmdQueue.init; calls = [] }

one_Valid : Valid one.queue
unfolding CmdQueue.init CmdQueue.create
one_Valid = record { inv = fill-Inv 1 CmdQueue.init init-Inv; idle = refl }

one_active : length (active one.queue) ≡ 1
unfolding CmdQueue.init CmdQueue.create
one_active = refl

too_large : oversized card (block 129 ∷ []) ≡ true
unfolding oversized
too_large = refl

inout_data_leaks_example :
    let (d', r) = inout_data card accept 7 (block 129 ∷ []) 3 true one in
    (r ≡ throws einval) × (active d'.queue ≡ active one.queue ++ one.queue.create_pos ∷ [])
inout_data_leaks_example =
    inout_data_leaks card accept 7 3 (block 129 ∷ []) true one one_Valid (omega (arith, one_active))
      (omega (arith, one_active)) too_large

-- a controller that starts each command, and completes it at the first interrupt
abbrev begin_cmd : Submit
begin_cmd c = (record c { status = progress_cmd }, done tt)

abbrev end_cmd : Interrupt
end_cmd c = (record c { status = success }, done tt)

begin_cmd-KeepsEnqueued : KeepsEnqueued begin_cmd
begin_cmd-KeepsEnqueued c = refl

begin_cmd-Starts : Starts begin_cmd
begin_cmd-Starts c r = refl

end_cmd-Handles : Handles end_cmd
end_cmd-Handles c = (refl, refl)

none_in_progress : List Cmd → Bool
none_in_progress [] = true
none_in_progress (c ∷ cs) = not (is_progress c.status) && none_in_progress cs

get_or-none_in_progress :
    (cs : List Cmd) (j : ℕ)
    → none_in_progress cs ≡ true
    → is_progress (get_or cs j blank).status ≡ false
unfolding none_in_progress
get_or-none_in_progress [] j e = refl
get_or-none_in_progress (c ∷ cs) zero e = ground arith
get_or-none_in_progress (c ∷ cs) (suc j) e = get_or-none_in_progress cs j (ground arith)

busy_none : none_in_progress busy.queue.cmds ≡ true
unfolding none_in_progress CmdQueue.init CmdQueue.create working inout_data try_inout cmd_queue_kick
    start init_inout oversized transfer_block_sdma reset reinit_inout_data
busy_none = refl

busy_Quiet : Quiet busy.queue
busy_Quiet j n = get_or-none_in_progress busy.queue.cmds j busy_none

abbrev server : Server
server = record { dev = busy; unmasked = true; stat_ints = 0 }

handle_irq-Served_example : Served (handle_irq card begin_cmd end_cmd server)
handle_irq-Served_example =
    handle_irq-Served card begin_cmd end_cmd server begin_cmd-KeepsEnqueued begin_cmd-Starts
      end_cmd-Handles busy_Taken.1 busy_Quiet
