-- ===== src/Inout.antt =====
-- server/src/device-impl.h and server/src/device.h: reading and writing the medium. inout_data()
-- queues a request, and handle_irq_inout() follows the request from one command to the next.
-- Submitting to the controller is a parameter: it gives the command back and may throw.
pub mod Advance
pub mod Commands
pub mod Between
pub mod OneBlock
pub mod Sdma
pub mod Adma
pub mod Device
pub mod Queue
pub mod Accept
pub mod Irq
pub mod Masks
pub mod Served
mod Tests
use emmc_driver.Base.{
  ℕ, zero, suc, ◌+◌, ◌*◌, ◌%◌, ◌^◌, Bool, true, false, not, ◌&&◌, ◌||◌, List, [], ◌∷◌, ◌++◌, Option,
  none, some, Errno, eio, einval, ebusy, Outcome, done, throws, Method, continue, ◌==◌, ltb,
  if◌then◌else◌,
}
use emmc_driver.Mmc.{
  cmd12_stop_transmission_rd, cmd12_stop_transmission_wr, cmd17_read_single_block,
  cmd18_read_multiple_block, cmd23_set_block_count, cmd24_write_block, cmd25_write_multiple_block,
}
use emmc_driver.Cmd.{
  Cmd, Flags, Block, Status, is_error, is_success, is_ready, init_inout, reinit_inout_nodata,
  reinit_inout_data,
}
use emmc_driver.CmdQueue.{CmdQueue, cmd_at, put_cmd, create, working, retire}

-- What the device and its driver report of themselves.
pub record Conf : Type 0 where
  pub has_cmd23 : Bool
  pub auto_cmd23 : Bool
  pub auto_cmd12 : Bool
  pub dma_adma2 : Bool
  pub addr_mult : ℕ
  pub max_size : ℕ

-- Work_status
pub data Work : Type 0 where
  work_done more_work : Work

-- The arguments of a call of `cb_io`; `none` is `L4_EOK`.
pub record Reply : Type 0 where
  pub error_code : Option Errno
  pub bytes : ℕ

-- What handling a completed command leaves: the command, the call of its callback, and the status.
abbrev pub Handled : Type 0
Handled = Cmd × Option Reply × Work

unfoldable pub bytes_transferred : Cmd → ℕ
bytes_transferred c = c.sectors_done * 512

abbrev pub cmd_stop : Cmd → ℕ
cmd_stop c = if c.flags.inout_read then cmd12_stop_transmission_rd else cmd12_stop_transmission_wr

abbrev pub cmd_single : Cmd → ℕ
cmd_single c = if c.flags.inout_read then cmd17_read_single_block else cmd24_write_block

abbrev pub cmd_multiple : Cmd → ℕ
cmd_multiple c =
    if c.flags.inout_read then cmd18_read_multiple_block else cmd25_write_multiple_block

-- `cmd->flags.inout_cmd12() = 1` where CMD23 is not available
abbrev pub mark_cmd12 : Conf → Cmd → Cmd
mark_cmd12 cf c =
    if cf.has_cmd23 then c else record c { flags = record (c.flags) { inout_cmd12 = true } }

-- the argument of a read or write, in 32 bits
abbrev pub address : Conf → Cmd → ℕ
address cf c = (c.sector * cf.addr_mult) % 2 ^ 32

unfoldable pub transfer_block_sdma : Conf → Cmd → Handled
unfolding reinit_inout_data reinit_inout_nodata bytes_transferred
transfer_block_sdma cf c = elim c.blocks [
  | [] ↦ (c, some (record { error_code = none; bytes = bytes_transferred c }), work_done)
  | b ∷ bs ↦ (
    if b.num_sectors == 1
        then reinit_inout_data c (cmd_single c) (address cf c) 1 512 false
        else if cf.has_cmd23 && not (c.cmd == cmd23_set_block_count)
        then reinit_inout_nodata c cmd23_set_block_count (b.num_sectors % 2 ^ 16)
        else mark_cmd12 cf
            (reinit_inout_data c (cmd_multiple c) (address cf c) b.num_sectors 512 false),
    none,
    more_work,
  )
]

-- The do-while loop: the blocks behind those without sectors.
unfoldable pub skip_empty : List Block → List Block
skip_empty [] = []
skip_empty (b ∷ bs) = let rest = skip_empty bs in if b.num_sectors == 0 then rest else b ∷ bs

-- The source reads the first block of the list; it runs on commands that have one.
unfoldable pub next_block : Cmd → Cmd
next_block c = elim c.blocks [
  | [] ↦ c
  | b ∷ bs ↦ record c {
    sector = (c.sector + b.num_sectors) % 2 ^ 32;
    sectors_done = (c.sectors_done + b.num_sectors) % 2 ^ 32;
    blocks = skip_empty bs;
  }
]

unfoldable pub handle_irq_inout_sdma : Conf → Cmd → Handled
handle_irq_inout_sdma cf c =
    if is_success c.status && not (c.cmd == cmd23_set_block_count)
    then transfer_block_sdma cf (next_block c)
    else transfer_block_sdma cf c

-- The loop of set_block_count_adma2(), in 32 bits.
unfoldable pub sum_sectors : ℕ → List Block → ℕ
sum_sectors n [] = n
sum_sectors n (b ∷ bs) = sum_sectors ((n + b.num_sectors) % 2 ^ 32) bs

unfoldable pub set_block_count_adma2 : Conf → Cmd → Cmd
unfolding reinit_inout_data reinit_inout_nodata
set_block_count_adma2 cf c =
    if not cf.has_cmd23 || cf.auto_cmd23
    then mark_cmd12 cf
        (reinit_inout_data c (cmd_multiple c) (address cf c) n 512 (cf.has_cmd23 && cf.auto_cmd23))
    else reinit_inout_nodata (record c { blockcnt = n }) cmd23_set_block_count (n % 2 ^ 16)
  where
    n : ℕ
    n = sum_sectors 0 c.blocks

unfoldable pub handle_irq_inout_adma2 : Conf → Cmd → Handled
unfolding reinit_inout_data bytes_transferred
handle_irq_inout_adma2 cf c =
    if not (c.cmd == cmd23_set_block_count)
    then (c, some (record { error_code = none; bytes = bytes_transferred c }), work_done)
    else (
      mark_cmd12 cf (reinit_inout_data c (cmd_multiple c) (address cf c) c.blockcnt 512 false),
      none,
      more_work,
    )

-- `cmd->status = cmd->status_cmd12` where the command was CMD12
abbrev pub restore_status : Cmd → Cmd
restore_status c =
    if (c.cmd == cmd12_stop_transmission_rd) || (c.cmd == cmd12_stop_transmission_wr)
    then record c { status = c.status_cmd12 }
    else c

-- The branches of handle_irq_inout() that choose the next command of the request.
unfoldable pub advance : Conf → Cmd → Handled
unfolding reinit_inout_nodata bytes_transferred
advance cf c =
    if c.flags.inout_cmd12 && not cf.auto_cmd12
    then (
      reinit_inout_nodata
          (record c { flags = record (c.flags) { inout_cmd12 = false }; status_cmd12 = c.status })
          (cmd_stop c) 0,
      none,
      more_work,
    )
    else if is_error r.status
    then (r, some (record { error_code = some eio; bytes = bytes_transferred r }), work_done)
    else if cf.dma_adma2
    then handle_irq_inout_adma2 cf r
    else handle_irq_inout_sdma cf r
  where
    r : Cmd
    r = restore_status c

-- What the controller reports of a submitted command.
abbrev pub complete : Cmd → Status → Cmd
complete c s = record c { status = s }

-- A command as it was given to the controller; `count` is its number of blocks.
pub record Issue : Type 0 where
  pub cmd : ℕ
  pub arg : ℕ
  pub count : ℕ

abbrev pub issue : Cmd → Issue
issue c = record { cmd = c.cmd; arg = c.arg; count = if c.flags.has_data then c.blockcnt else 0 }

abbrev pub replies : Option Reply → List Reply
replies none = []
replies (some r) = r ∷ []

abbrev pub add_issue :
    Issue → Option Reply → Option (List Issue × List Reply) → Option (List Issue × List Reply)
add_issue i r none = none
add_issue i r (some (is, rs)) = some (i ∷ is, replies r ++ rs)

-- A request from command to command, where the controller completes each with the next of the
-- given states: the commands submitted, and all calls of the callback. `none` is out of fuel.
pub follow : ℕ → Conf → (ℕ → Status) → Handled → Option (List Issue × List Reply)
follow fuel cf st (c, r, work_done) = some ([], replies r)
follow zero cf st (c, r, more_work) = none
follow (suc fuel) cf st (c, r, more_work) =
    add_issue (issue c) r (follow fuel cf st (advance cf (complete c (st fuel))))

-- The branches of inout_data() that set up the first command of a request.
unfoldable pub start : Conf → Cmd → Handled
start cf c =
    if cf.dma_adma2 then (set_block_count_adma2 cf c, none, more_work) else transfer_block_sdma cf c
