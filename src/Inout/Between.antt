-- ===== src/Inout/Between.antt =====
-- handle_irq_inout() between two blocks of a request without ADMA2.
use emmc_driver.Base.{
  ℕ, suc, ◌+◌, ◌*◌, ◌%◌, ◌^◌, ◌≤◌, ◌<◌, ◌≡◌, refl, ap, ◌∙◌, true, false, not, ◌&&◌, List, [], ◌∷◌,
  none, some, arith, ◌==◌, length,
}
use emmc_driver.Mmc.{cmd23_set_block_count}
use emmc_driver.Cmd.{Cmd, Block, success, reinit_inout_nodata, reinit_inout_data}
use emmc_driver.Inout.{
  Conf, more_work, Reply, Handled, Issue, advance, follow, skip_empty, transfer_block_sdma,
  handle_irq_inout_sdma, next_block, bytes_transferred, complete, issue, add_issue, cmd_single,
  cmd_multiple, mark_cmd12, address,
}
use emmc_driver.Inout.Advance.{is_cmd12}
use emmc_driver.Inout.Commands.{
  commands, total, total-skip_empty, commands-skip_empty, all_success, finished_with,
}

-- The command between two blocks.
pub record Between (cf : Conf) (c : Cmd) : Type 0 where
  pub not_cmd23 : (c.cmd == cmd23_set_block_count) ≡ false
  pub no_cmd12 : (c.flags.inout_cmd12 && not cf.auto_cmd12) ≡ false
  pub sector_lt : c.sector + total c.blocks < 2 ^ 32
  pub done_lt : c.sectors_done + total c.blocks < 2 ^ 32

pub follow-nil :
    (fuel : ℕ) (cf : Conf) (c : Cmd)
    → c.blocks ≡ []
    → follow fuel cf all_success (transfer_block_sdma cf c) ≡ finished_with cf c
unfolding follow transfer_block_sdma commands total bytes_transferred
follow-nil fuel cf c e = ground arith

-- `c` when the block `b` is transferred
abbrev pub behind : Cmd → Block → List Block → Cmd
behind c b bs = record c {
  sector = (c.sector + b.num_sectors) % 2 ^ 32;
  sectors_done = (c.sectors_done + b.num_sectors) % 2 ^ 32;
  blocks = skip_empty bs;
}

pub behind-Between :
    {cf : Conf} {c : Cmd} (b : Block) (bs : List Block)
    → Between cf c
    → c.blocks ≡ b ∷ bs
    → Between cf (behind c b bs)
unfolding total
behind-Between {cf} {c} b bs w e = record {
  not_cmd23 = w.not_cmd23;
  no_cmd12 = w.no_cmd12;
  sector_lt = ground (arith, total-skip_empty bs, w.sector_lt);
  done_lt = ground (arith, total-skip_empty bs, w.done_lt);
}

pub behind-finished_with :
    {cf : Conf} {c : Cmd} (b : Block) (bs : List Block)
    → Between cf c
    → c.blocks ≡ b ∷ bs
    → finished_with cf (behind c b bs)
      ≡ some (
        commands cf c.flags.inout_read (c.sector + b.num_sectors) bs,
        record { error_code = none; bytes = (c.sectors_done + total c.blocks) * 512 } ∷ [],
      )
unfolding total
behind-finished_with {cf} {c} b bs w e = ground (
  arith,
  total-skip_empty bs,
  w.sector_lt,
  w.done_lt,
  commands-skip_empty cf c.flags.inout_read (c.sector + b.num_sectors) bs,
)

-- The last command of a block was completed.
pub advance_last :
    (cf : Conf) (c : Cmd) (b : Block) (bs : List Block)
    → cf.dma_adma2 ≡ false
    → (c.cmd == cmd23_set_block_count) ≡ false
    → (c.flags.inout_cmd12 && not cf.auto_cmd12) ≡ false
    → c.status ≡ success
    → (is_cmd12 c ≡ true → c.status_cmd12 ≡ success)
    → c.blocks ≡ b ∷ bs
    → advance cf c ≡ transfer_block_sdma cf (behind c b bs)
unfolding advance handle_irq_inout_sdma next_block
advance_last cf c b bs a n f s k e = ground (arith, k)

-- the commands that transfer_block_sdma() sets up, in `c` with the block `b` before it
abbrev pub sent_single : Conf → Cmd → Cmd
sent_single cf c = reinit_inout_data c (cmd_single c) (address cf c) 1 512 false

abbrev pub sent_count : Cmd → Block → Cmd
sent_count c b = reinit_inout_nodata c cmd23_set_block_count (b.num_sectors % 2 ^ 16)

abbrev pub sent_multiple : Conf → Cmd → Block → Cmd
sent_multiple cf c b =
    mark_cmd12 cf (reinit_inout_data c (cmd_multiple c) (address cf c) b.num_sectors 512 false)

-- What a request does from `c` on, for the requests with fewer blocks.
abbrev pub Smaller : Conf → List Block → Type 0
Smaller cf bs =
    (fuel : ℕ) (c : Cmd)
    → c.blocks ≡ skip_empty bs
    → 2 * length bs + 1 ≤ fuel
    → Between cf c
    → follow fuel cf all_success (transfer_block_sdma cf c) ≡ finished_with cf c

-- The last command of a block, and all that follows.
pub follow_last :
    {cf : Conf} (fuel : ℕ) (c : Cmd) (b : Block) (bs : List Block)
    → cf.dma_adma2 ≡ false
    → (is_cmd12 c ≡ true → c.status_cmd12 ≡ success)
    → c.blocks ≡ b ∷ bs
    → c.status ≡ success
    → Between cf c
    → 2 * length bs + 1 ≤ fuel
    → Smaller cf bs
    → follow fuel cf all_success (advance cf c)
      ≡ some (
        commands cf c.flags.inout_read (c.sector + b.num_sectors) bs,
        record { error_code = none; bytes = (c.sectors_done + total c.blocks) * 512 } ∷ [],
      )
follow_last {cf} fuel c b bs a k e s w le ih =
    ap (follow fuel cf all_success) (advance_last cf c b bs a w.not_cmd23 w.no_cmd12 s k e)
    ∙ ih fuel (behind c b bs) refl le (behind-Between b bs w e)
    ∙ behind-finished_with b bs w e

-- The first command that is sent for a block, and its success.
pub transferred-Between :
    {cf : Conf} {c x : Cmd}
    → Between cf c
    → (x.cmd == cmd23_set_block_count) ≡ false
    → (x.flags.inout_cmd12 && not cf.auto_cmd12) ≡ false
    → x.sector ≡ c.sector
    → x.sectors_done ≡ c.sectors_done
    → x.blocks ≡ c.blocks
    → Between cf x
transferred-Between {cf} {c} {x} w n f s d b = record {
  not_cmd23 = n;
  no_cmd12 = f;
  sector_lt = rw (s, b) w.sector_lt;
  done_lt = rw (d, b) w.done_lt;
}

pub follow_more :
    (cf : Conf) (fuel : ℕ) (x : Cmd) {h : Handled} {is : List Issue} {r : List Reply}
    → h ≡ (x, none, more_work)
    → follow fuel cf all_success (advance cf (complete x success)) ≡ some (is, r)
    → follow (suc fuel) cf all_success h ≡ some (issue x ∷ is, r)
unfolding follow
follow_more cf fuel x {is} {r} e f =
    ap (follow (suc fuel) cf all_success) e ∙ ap (add_issue (issue x) none) f
