-- ===== src/Sdhi/Tests.antt =====
-- The theorems on the SDHI clock at a usual frequency, and those on commands at a write of eight
-- blocks.
use emmc_driver.Base.{ℕ, Bool, ◌==◌, done, throws, eio, ◌≡◌, refl, true, false, [], ◌∷◌, some}
use emmc_driver.Mmc.{cmd25_write_multiple_block}
use emmc_driver.Cmd.{Cmd, blank, ready_for_submit, progress_cmd, success, cmd_idx}
use emmc_driver.Sdhi.Submit.{mode_r1, cmd_submit, write_all, resp_mode}
use emmc_driver.Sdhi.Interrupt.{SdInfo, new_info, RspRegs, handle_irq}
use emmc_driver.Sdhi.Sent.{Controller, sent, Outcomes, sdhi_cmd_submit_lem}
use emmc_driver.Sdhi.Ends.{sdhi_handle_irq_lem}
use emmc_driver.Sdhi.Exec.{cmd_exec, finished, sdhi_cmd_exec_lem}

abbrev write : Cmd
write = record blank {
  status = ready_for_submit;
  cmd = cmd25_write_multiple_block;
  arg = 4096;
  flags = record (blank.flags) { has_data = true };
  blockcnt = 8;
  blocksize = 512;
  blocks = record { dma_addr = 0x10000; virt_addr = 0x20000; num_sectors = 8 } ∷ [];
}

abbrev idle : Controller
idle = record { arg = 0; size = 0; seccnt = 0; sec = false; dma = false; reads = true; addr = 0 }

-- the controller is never busy
abbrev free : ℕ → Bool
free n = true

sends_write :
    sent idle (cmd_submit free write).1
    ≡ (
      record { cf = 25; mode = mode_r1; md3 = true; md4 = false; md5 = true },
      record {
        arg = 4096;
        size = 512;
        seccnt = 8;
        sec = true;
        dma = true;
        reads = false;
        addr = 0x10000;
      },
    )
      ∷ []
unfolding cmd_submit resp_mode cmd_idx write_all
sends_write = refl

sdhi_cmd_submit_lem_example : Outcomes write (cmd_submit free write)
sdhi_cmd_submit_lem_example = sdhi_cmd_submit_lem free write

-- the controller is busy when the block count is to be written
stays_busy : (cmd_submit (λ n. n == 0) write).2 ≡ throws eio
unfolding cmd_submit resp_mode write_all
stays_busy = refl

-- the next block may be written
abbrev buffer_free : SdInfo
buffer_free = record new_info { bwe = true }

abbrev regs : RspRegs
regs = record { rsp10 = 0x900; rsp32 = 0xabcdef01; rsp54 = 5; rsp76 = 0xffffff }

abbrev sent_write : Cmd
sent_write = record write { status = progress_cmd }

sdhi_handle_irq_lem_example :
    let (c, ws, r) = handle_irq regs true (record buffer_free { info0 = true }) sent_write in
    (c.status ≡ success) × (r ≡ done tt)
sdhi_handle_irq_lem_example =
    sdhi_handle_irq_lem regs true (record buffer_free { info0 = true }) sent_write refl refl

sdhi_cmd_exec_lem_example :
    cmd_exec free
      (record {
        at_cmd = buffer_free ∷ record buffer_free { info0 = true } ∷ [];
        at_data = (buffer_free, true) ∷ [];
        response = regs;
      })
      write
    ≡ some (finished regs (record write { status = success }), done tt)
unfolding cmd_submit resp_mode write_all
sdhi_cmd_exec_lem_example =
    sdhi_cmd_exec_lem free write (buffer_free ∷ []) [] [] (record buffer_free { info0 = true })
      buffer_free regs refl (refl, tt) refl
