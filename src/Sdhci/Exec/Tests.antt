-- ===== src/Sdhci/Exec/Tests.antt =====
-- The theorem on cmd_exec() at a read of eight blocks in ADMA2 mode.
use emmc_driver.Base.{◌≡◌, refl, true, false, [], ◌∷◌, done, ◌^◌, ◌-◌}
use emmc_driver.Mmc.{cmd18_read_multiple_block}
use emmc_driver.Cmd.{Cmd, blank, ready_for_submit, cmd_idx}
use emmc_driver.Adma.{adma2_set_descs_mem_region, adma2_set_descs, dma_accessible}
use emmc_driver.Sdhci.{usdhc, Regs, no_ints, is_tuning}
use emmc_driver.Sdhci.Submit.{SubmitConf, MixCtrl}
use emmc_driver.Sdhci.Submit.Prepare.{cmd_submit_prepare_dma}
use emmc_driver.Sdhci.Submit.Send.{
  cmd_submit, command_fields, cmd_submit_set_dma_addr, cmd_submit_set_block_size_and_count,
}
use emmc_driver.Sdhci.Submit.Queue.{submitter}
use emmc_driver.Sdhci.Exec.{Interrupt, Answers, cmd_wait_available, cmd_exec}
use emmc_driver.Sdhci.Executed.{EndsWith, exec_result, sdhci_cmd_exec_lem}

abbrev mix : MixCtrl
mix = record {
  dmaen = false;
  bcen = false;
  ac12en = false;
  dtdsel = false;
  msbsel = false;
  ac23en = false;
  auto_tune_en = false;
  fbclk_sel = false;
}

abbrev conf : SubmitConf
conf = record {
  type = usdhc;
  adma2 = true;
  adma = record {
    adma2_64 = false;
    capacity = 512;
    dma_offset = 0;
    dma_limit = 2 ^ 32 - 1;
    bb_phys = 0;
    bb_size = 0;
  };
  adma2_desc_phys = 0x40000000;
}

abbrev read : Cmd
read = record blank {
  status = ready_for_submit;
  cmd = cmd18_read_multiple_block;
  arg = 4096;
  flags = record (blank.flags) { has_data = true; inout = true; inout_read = true };
  blockcnt = 8;
  blocksize = 512;
  blocks = record { dma_addr = 0x10000; virt_addr = 0x20000; num_sectors = 8 } ∷ [];
}

abbrev regs : Regs
regs = record {
  cihb = false;
  execute_tuning = false;
  smp_clk_sel = false;
  blkcnt = 0;
  rsp0 = 0x900;
  rsp1 = 0;
  rsp2 = 0;
  rsp3 = 0;
  poll_reset = done tt;
}

abbrev spurious : Interrupt
spurious = (regs, no_ints)

abbrev response : Interrupt
response = (regs, record no_ints { cc = true })

abbrev part : Interrupt
part = (regs, record no_ints { dint = true })

abbrev all_moved : Interrupt
all_moved = (regs, record no_ints { tc = true })

-- the bus is free at the second look
abbrev answers : Answers
answers = record {
  at_avail = record { cihb = true; cdihb = false } ∷ record { cihb = false; cdihb = false } ∷ [];
  at_cmd = spurious ∷ response ∷ [];
  at_data = part ∷ all_moved ∷ [];
  response = regs;
}

free : cmd_wait_available answers.at_avail read ≡ true
unfolding cmd_wait_available
free = refl

read_submitted : (submitter conf mix read).1 ≡ done tt
unfolding cmd_submit cmd_submit_prepare_dma command_fields cmd_submit_set_dma_addr cmd_idx
    dma_accessible cmd_submit_set_block_size_and_count adma2_set_descs adma2_set_descs_mem_region
read_submitted = refl

no_tuning : is_tuning (submitter conf mix read).0 ≡ false
unfolding cmd_submit cmd_submit_prepare_dma command_fields cmd_submit_set_dma_addr cmd_idx
    dma_accessible cmd_submit_set_block_size_and_count adma2_set_descs adma2_set_descs_mem_region
no_tuning = refl

sdhci_cmd_exec_lem_example :
    EndsWith
      (exec_result response all_moved (submitter conf mix read).0.flags.has_data)
      (cmd_exec conf mix answers read)
sdhci_cmd_exec_lem_example =
    sdhci_cmd_exec_lem conf mix answers read (spurious ∷ []) [] (part ∷ []) [] response all_moved
      free read_submitted no_tuning refl (refl, tt) refl refl refl ((refl, refl), tt) refl refl
