-- ===== src/Sdhci/Submit/Queue.antt =====
-- cmd_submit() of server/src/drv_sdhci-impl.h as the submission that the device in
-- server/src/device-impl.h calls.
use emmc_driver.Base.{ℕ, ◌≡◌, some}
use emmc_driver.CmdQueue.{cmd_at, working}
use emmc_driver.Inout.{Conf}
use emmc_driver.Inout.Device.{Dev, Submit, handle_irq_inout}
use emmc_driver.Inout.Queue.{KeepsEnqueued, Valid, Step, handle_irq_inout_lem}
use emmc_driver.Sdhci.Submit.{SubmitConf, MixCtrl}
use emmc_driver.Sdhci.Submit.Send.{cmd_submit}
use emmc_driver.Sdhci.Submit.Sent.{cmd_submit_lem}

abbrev pub submitter : SubmitConf → MixCtrl → Submit
submitter cf mc c = let (c', es, r) = cmd_submit cf mc c in (c', r)

pub submitter-KeepsEnqueued : (cf : SubmitConf) (mc : MixCtrl) → KeepsEnqueued (submitter cf mc)
submitter-KeepsEnqueued cf mc c = (cmd_submit_lem cf mc c).0

-- With the submission of an SDHCI controller, a valid queue stays valid where `handle_irq_inout()`
-- is given its current command with a callback; either the queue has the same commands and no
-- callback was called, or that command has left the queue and its callback was called once.
pub sdhci_handle_irq_inout_lem :
    (scf : SubmitConf) (mc : MixCtrl) (cf : Conf) (i cb : ℕ) (d : Dev)
    → Valid d.queue
    → working d.queue ≡ some i
    → (cmd_at d.queue i).cb_io ≡ some cb
    → Step i cb d (handle_irq_inout cf (submitter scf mc) i d).0
sdhci_handle_irq_inout_lem scf mc cf i cb d v w e =
    handle_irq_inout_lem cf (submitter scf mc) i cb d (submitter-KeepsEnqueued scf mc) v w e
