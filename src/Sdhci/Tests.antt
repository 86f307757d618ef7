-- ===== src/Sdhci/Tests.antt =====
-- The theorems on interrupts at a read of eight blocks.
use emmc_driver.Base.{◌≡◌, true, false, done}
use emmc_driver.Mmc.{cmd18_read_multiple_block}
use emmc_driver.Cmd.{Cmd, blank, progress_cmd}
use emmc_driver.Sdhci.{usdhc, IntStatus, no_ints, Regs, handle_irq}
use emmc_driver.Sdhci.Irq.{acks_within, handle_irq-acks}

abbrev regs : Regs
regs = record {
  cihb = false;
  execute_tuning = false;
  smp_clk_sel = false;
  blkcnt = 3;
  rsp0 = 0x900;
  rsp1 = 0xabcdef01;
  rsp2 = 5;
  rsp3 = 0xffffff;
  poll_reset = done tt;
}

abbrev read : Cmd
read = record blank {
  status = progress_cmd;
  cmd = cmd18_read_multiple_block;
  flags = record (blank.flags) { has_data = true };
  blockcnt = 8;
  blocksize = 512;
  data_phys = 0x10000;
}

-- the end of the command and of the transfer, at once
abbrev both : IntStatus
both = record no_ints { cc = true; tc = true }

handle_irq-acks_example : acks_within both (handle_irq usdhc regs true both read).1 ≡ true
handle_irq-acks_example = handle_irq-acks usdhc regs true both read
