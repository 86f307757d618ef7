-- ===== src/Sdhci/Exec.antt =====
-- Drv::cmd_exec() of server/src/drv.h on the SDHCI controllers of server/src/drv_sdhci-impl.h: a command
-- is submitted when the bus is free, and waited for. What comes from the controller is an argument.
mod Tests
use emmc_driver.Base.{
  Bool-cases, inl, inr, ◌⊎◌, ◌≡◌, refl, sym, ap, ◌∙◌, ◌&&◌, ◌||◌, ◌++◌, Bool, true, false, not,
  List, [], ◌∷◌, Option, none, some, Outcome, done, throws, einval, arith, ◌==◌, if◌then◌else◌,
}
use emmc_driver.Mmc.{test_bit, cmd12_stop_transmission_rd, cmd12_stop_transmission_wr}
use emmc_driver.Cmd.{
  Cmd, Status, success, progress_cmd, progress_data, cmd_timeout, cmd_error, data_error, is_error,
}
use emmc_driver.Sdhci.{
  SdhciType, Regs, IntStatus, Handled, with_status, has_cmd_error, has_data_error, is_tuning,
  in_cmd_phase, in_data_phase, handle_irq_cmd, handle_irq_data, fetch_response,
}
use emmc_driver.Sdhci.Submit.{SubmitConf, MixCtrl}
use emmc_driver.Sdhci.Submit.Queue.{submitter}
use emmc_driver.Sdhci.Submit.Sent.{cmd_submit_lem}

-- Reg_pres_state, as cmd_wait_available() reads it.
pub record Pres : Type 0 where
  pub cihb : Bool
  pub cdihb : Bool

-- `Rsp_check_busy` is bit 11.
abbrev pub needs_data : Cmd → Bool
needs_data c =
    (c.flags.has_data || test_bit c.cmd 11)
    && not ((c.cmd == cmd12_stop_transmission_rd) || (c.cmd == cmd12_stop_transmission_wr))

abbrev pub is_free : Cmd → Pres → Bool
is_free c p = not p.cihb && (not (needs_data c) || not p.cdihb)

-- Whether the loop ends within these reads of the register.
unfoldable pub cmd_wait_available : List Pres → Cmd → Bool
cmd_wait_available [] c = false
cmd_wait_available (p ∷ ps) c =
    let rest = cmd_wait_available ps c in if is_free c p then true else rest

-- What the handlers read at an interrupt.
abbrev pub Interrupt : Type 0
Interrupt = Regs × IntStatus

-- An exception leaves the loop.
abbrev pub Waited : Type 0
Waited = Option (Cmd × Outcome (Unit {0}))

abbrev pub next : Handled → Waited → Waited
next (c, ws, throws e) rest = some (c, throws e)
next (c, ws, done u) rest = rest

-- The loops of the two waits, with the interrupts that come; `none` is a wait for more.
unfoldable pub cmd_wait_cmd_finished : SdhciType → List Interrupt → Cmd → Waited
cmd_wait_cmd_finished type [] c = if in_cmd_phase c then none else some (c, done tt)
cmd_wait_cmd_finished type ((regs, is) ∷ is') c =
    let h = handle_irq_cmd type regs is c in
    let rest = cmd_wait_cmd_finished type is' h.0 in
    if in_cmd_phase c then next h rest else some (c, done tt)

unfoldable pub cmd_wait_data_finished : Bool → List Interrupt → Cmd → Waited
cmd_wait_data_finished adma2 [] c = if in_data_phase c then none else some (c, done tt)
cmd_wait_data_finished adma2 ((regs, is) ∷ is') c =
    let h = handle_irq_data regs adma2 is c in
    let rest = cmd_wait_data_finished adma2 is' h.0 in
    if in_data_phase c then next h rest else some (c, done tt)

pub record Answers : Type 0 where
  pub at_avail : List Pres
  pub at_cmd : List Interrupt
  pub at_data : List Interrupt
  pub response : Regs

-- `Rsp_present` is bit 8.
abbrev pub fetch_if_present : Regs → Cmd → Cmd
fetch_if_present regs c = if test_bit c.cmd 8 then fetch_response regs c else c

abbrev pub after_data : Answers → Waited → Waited
after_data a none = none
after_data a (some (c, throws e)) = some (c, throws e)
after_data a (some (c, done u)) =
    if is_error c.status then some (c, done tt) else some (fetch_if_present a.response c, done tt)

abbrev pub after_wait : Bool → Answers → Waited → Waited
after_wait adma2 a none = none
after_wait adma2 a (some (c, throws e)) = some (c, throws e)
after_wait adma2 a (some (c, done u)) =
    if is_error c.status
    then some (c, done tt)
    else after_data a (cmd_wait_data_finished adma2 a.at_data c)

abbrev pub after_submit : SubmitConf → Answers → Cmd × Outcome (Unit {0}) → Waited
after_submit cf a (c, throws e) = some (c, throws e)
after_submit cf a (c, done u) = after_wait cf.adma2 a (cmd_wait_cmd_finished cf.type a.at_cmd c)

unfoldable pub cmd_exec : SubmitConf → MixCtrl → Answers → Cmd → Waited
cmd_exec cf mc a c =
    if cmd_wait_available a.at_avail c then after_submit cf a (submitter cf mc c) else none
