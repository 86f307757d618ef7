-- ===== src/Sdhci/Submit/Tests.antt =====
-- Submission at a read of eight blocks in ADMA2 mode, and at a command with too many blocks.
use mathlib.Core.Path.{subst}
use mathlib.Core.Option.{some-injective}
use emmc_driver.CmdQueue.{CmdQueue, working, cmd_at, create}
use emmc_driver.CmdQueue as CmdQueue
use emmc_driver.CmdQueue.Inv.{init-Inv}
use emmc_driver.CmdQueue.Fifo.{active}
use emmc_driver.Inout as Inout
use emmc_driver.Inout.{start, set_block_count_adma2}
use emmc_driver.Inout.Device.{Dev, oversized, inout_data}
use emmc_driver.Inout.Queue.{Valid}
use emmc_driver.Inout.Accept.{Submits, Taken, set_up_queue, inout_data_takes}
use emmc_driver.Sdhci.Submit.Queue.{submitter, submitter-KeepsEnqueued}
use emmc_driver.Base.{
  true, false, ◌≡◌, refl, [], ◌∷◌, none, some, done, throws, einval, arith, ◌^◌, ◌-◌, ◌<◌, ◌∙◌, sym,
  length,
}
use emmc_driver.Mmc.{cmd18_read_multiple_block}
use emmc_driver.Cmd.{
  Cmd, Block, init_inout, reinit_inout_data, reset, blank, ready_for_submit, cmd_idx,
}
use emmc_driver.Adma.{adma2_set_descs_mem_region, adma2_set_descs, dma_accessible}
use emmc_driver.Sdhci.{usdhc, iproc}
use emmc_driver.Sdhci.Submit.{SubmitConf, MixCtrl}
use emmc_driver.Sdhci.Submit.Prepare.{cmd_submit_prepare_dma}
use emmc_driver.Sdhci.Submit.Send.{
  cmd_submit, command_fields, cmd_submit_set_dma_addr, cmd_submit_set_block_size_and_count,
}
use emmc_driver.Sdhci.Submit.Sent.{sent, Outcomes, cmd_submit_lem}
use emmc_driver.Sdhci.Submit.Size.{block_regs, block_regs-cmd_submit}

abbrev mix : MixCtrl
mix = record {
  dmaen = false;
  bcen = false;
  ac12en = false;
  dtdsel = false;
  msbsel = false;
  ac23en = false;
  auto_tune_en = false;
  fbclk_sel = false;
}

abbrev conf : SubmitConf
conf = record {
  type = usdhc;
  adma2 = true;
  adma = record {
    adma2_64 = false;
    capacity = 512;
    dma_offset = 0;
    dma_limit = 2 ^ 32 - 1;
    bb_phys = 0;
    bb_size = 0;
  };
  adma2_desc_phys = 0x40000000;
}

abbrev read : Cmd
read = record blank {
  status = ready_for_submit;
  cmd = cmd18_read_multiple_block;
  arg = 4096;
  flags = record (blank.flags) { has_data = true; inout = true; inout_read = true };
  blockcnt = 8;
  blocksize = 512;
  blocks = record { dma_addr = 0x10000; virt_addr = 0x20000; num_sectors = 8 } ∷ [];
}

sends : sent none (cmd_submit conf mix read).1 ≡ (some 4096, 18) ∷ []
unfolding cmd_submit cmd_submit_prepare_dma command_fields cmd_submit_set_dma_addr cmd_idx
    dma_accessible cmd_submit_set_block_size_and_count adma2_set_descs adma2_set_descs_mem_region
sends = refl

too_many_blocks :
    (cmd_submit (record conf { type = iproc }) mix (record read { blockcnt = 2 ^ 16 })).2
    ≡ throws einval
unfolding cmd_submit cmd_submit_prepare_dma command_fields cmd_submit_set_dma_addr cmd_idx
    dma_accessible cmd_submit_set_block_size_and_count adma2_set_descs adma2_set_descs_mem_region
too_many_blocks = refl

cmd_submit_lem_example : Outcomes read (cmd_submit conf mix read)
cmd_submit_lem_example = cmd_submit_lem conf mix read

read_done : (cmd_submit conf mix read).2 ≡ done tt
unfolding cmd_submit cmd_submit_prepare_dma command_fields cmd_submit_set_dma_addr cmd_idx
    dma_accessible cmd_submit_set_block_size_and_count adma2_set_descs adma2_set_descs_mem_region
read_done = refl

block_regs-cmd_submit_example : block_regs none (cmd_submit conf mix read).1 ≡ some (8, 512)
block_regs-cmd_submit_example =
    block_regs-cmd_submit conf mix read refl (ground arith) refl read_done

-- A request to a device without CMD23.
abbrev card : Inout.Conf
card = record {
  has_cmd23 = false;
  auto_cmd23 = false;
  auto_cmd12 = false;
  dma_adma2 = true;
  addr_mult = 1;
  max_size = 65536;
}

abbrev idle : Dev
idle = record { queue = CmdQueue.init; calls = [] }

idle-Valid : Valid idle.queue
unfolding CmdQueue.init
idle-Valid = record { inv = init-Inv; idle = refl }

idle_room : length (active idle.queue) < 31
unfolding CmdQueue.init
idle_room = omega arith

abbrev asked_for : Block
asked_for = record { dma_addr = 0x10000; virt_addr = 0x20000; num_sectors = 8 }

not_oversized : oversized card (asked_for ∷ []) ≡ false
unfolding oversized
not_oversized = refl

abbrev queued : CmdQueue
queued = set_up_queue card 4096 3 (asked_for ∷ []) true idle

queued-working : working queued ≡ some 0
unfolding CmdQueue.init create working start init_inout set_block_count_adma2 reinit_inout_data
    reset
queued-working = refl

queued-submitter : (submitter conf mix (cmd_at queued 0)).1 ≡ done tt
unfolding Inout.sum_sectors CmdQueue.init create start init_inout set_block_count_adma2
    reinit_inout_data reset cmd_submit cmd_submit_prepare_dma command_fields cmd_submit_set_dma_addr
    cmd_idx dma_accessible cmd_submit_set_block_size_and_count adma2_set_descs
    adma2_set_descs_mem_region
queued-submitter = refl

queued-Submits : Submits (submitter conf mix) queued
queued-Submits i w r =
    subst (λ j. (submitter conf mix (cmd_at queued j)).1 ≡ done tt)
      (some-injective 0 i (sym queued-working ∙ w)) queued-submitter

inout_data_takes_example :
    Taken idle (inout_data card (submitter conf mix) 4096 (asked_for ∷ []) 3 true idle)
inout_data_takes_example =
    inout_data_takes card (submitter conf mix) 4096 3 asked_for [] true idle
      (submitter-KeepsEnqueued conf mix) queued-Submits idle-Valid idle_room not_oversized
