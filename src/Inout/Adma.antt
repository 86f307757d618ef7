-- ===== src/Inout/Adma.antt =====
-- Requests with ADMA2, of which the controller completes every command with success.
use emmc_driver.Base.{
  ℕ, ◌+◌, ◌*◌, ◌%◌, ◌^◌, ◌<◌, ◌≡◌, Bool, true, List, [], ◌∷◌, none, some, arith, if◌then◌else◌,
}
use emmc_driver.Mmc.{
  cmd12_stop_transmission_rd, cmd12_stop_transmission_wr, cmd18_read_multiple_block,
  cmd23_set_block_count, cmd25_write_multiple_block,
}
use emmc_driver.Cmd.{Cmd, Block, init_inout, reset, reinit_inout_nodata, reinit_inout_data}
use emmc_driver.Inout.{
  Conf, Issue, advance, start, follow, sum_sectors, set_block_count_adma2, handle_irq_inout_adma2,
  bytes_transferred,
}
use emmc_driver.Inout.Commands.{total, all_success}

sum_sectors_lem :
    (n : ℕ) (bs : List Block) → n + total bs < 2 ^ 32 → sum_sectors n bs ≡ n + total bs
unfolding sum_sectors total
sum_sectors_lem n [] h = omega arith
sum_sectors_lem n (b ∷ bs) h = ground (arith, sum_sectors_lem ((n + b.num_sectors) % 2 ^ 32) bs)

-- One transfer of all blocks, with CMD23 before it, by the driver or by the controller, or CMD12
-- behind it.
abbrev pub adma2_commands : Conf → Bool → ℕ → ℕ → List Issue
adma2_commands cf rd sector n =
    if cf.has_cmd23
    then if cf.auto_cmd23
      then transfer ∷ []
      else record { cmd = cmd23_set_block_count; arg = n % 2 ^ 16; count = 0 } ∷ transfer ∷ []
    else transfer
      ∷ (if cf.auto_cmd12
          then []
          else record {
            cmd = if rd then cmd12_stop_transmission_rd else cmd12_stop_transmission_wr;
            arg = 0;
            count = 0;
          }
            ∷ [])
  where
    transfer : Issue
    transfer = record {
      cmd = if rd then cmd18_read_multiple_block else cmd25_write_multiple_block;
      arg = (sector * cf.addr_mult) % 2 ^ 32;
      count = n;
    }

-- A request with ADMA2 that stays within 32-bit sector numbers, and whose commands the controller
-- completes with success: all blocks together are one transfer, which CMD23 announces or CMD12
-- ends as the device and the controller support it. The callback is told success, but 0 bytes,
-- for nothing counts the sectors of such a request.
pub inout_adma2_lem :
    (cf : Conf) (c : Cmd) (sector cb : ℕ) (rd : Bool) (bs : List Block)
    → cf.dma_adma2 ≡ true
    → sector + total bs < 2 ^ 32
    → follow 3 cf all_success (start cf (init_inout c sector bs (some cb) rd))
      ≡ some (adma2_commands cf rd sector (total bs), record { error_code = none; bytes = 0 } ∷ [])
unfolding start init_inout reset follow set_block_count_adma2 advance handle_irq_inout_adma2
    bytes_transferred reinit_inout_data reinit_inout_nodata
inout_adma2_lem cf c sector cb rd bs a l = ground (arith, sum_sectors_lem 0 bs)
