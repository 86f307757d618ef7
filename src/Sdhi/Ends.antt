-- ===== src/Sdhi/Ends.antt =====
-- How the phases of a command end in server/src/drv_sdhi.cc: handle_irq(), the waits, the response.
use emmc_driver.Base.{
  ◌+◌, ◌*◌, ◌%◌, ◌^◌, ◌<◌, Bool, true, false, not, ◌&&◌, ◌||◌, List, [], ◌∷◌, some, done, throws,
  eio, ◌≡◌, refl, ap, ◌++◌, arith, if◌then◌else◌,
}
use emmc_driver.Mmc.{test_bit}
use emmc_driver.Cmd.{
  Cmd, success, progress_cmd, progress_data, cmd_timeout, cmd_error, data_error, Status,
}
use emmc_driver.Sdhi.Interrupt.{
  SdInfo, has_error, data_failed, RspRegs, handle_irq_cmd, handle_irq_data, handle_irq,
  cmd_fetch_response, cmd_wait_cmd_finished, in_cmd_phase,
}

abbrev phase : Status → Bool
phase progress_cmd = true
phase _ = false

-- what the end of the command phase comes to
abbrev pub cmd_result : SdInfo → Cmd → Status
cmd_result i c =
    if i.err6
    then cmd_timeout
    else if has_error i
    then cmd_error
    else if c.flags.has_data
    then progress_data
    else success

-- Any interrupt ends the data phase, also of a write for which Reg_sd_info says that the card is
-- busy, if the controller is free in time: the command has failed with a CRC error, an END error or
-- an illegal access, and is successful in all other cases, also at a data timeout.
pub sdhi_handle_irq_data_ends :
    (c : Cmd) (i : SdInfo)
    → let (c', ws, r) = handle_irq_data true c i in
      (r ≡ done tt) × (c'.status ≡ (if data_failed i then data_error else success))
unfolding handle_irq_data
sdhi_handle_irq_data_ends c i = ground arith

-- In `handle_irq()` one interrupt with a response or a response timeout ends the command phase, and
-- with it the data phase too, though the transfer was only just started: a response timeout, an
-- error with the response and, for a command with data, an illegal access let the command fail;
-- without any of these it is successful. But where a transfer was started and the controller is
-- not free in time, EIO is thrown, and the command stays in its data phase.
pub sdhi_handle_irq_lem :
    (regs : RspRegs) (free : Bool) (i : SdInfo) (c : Cmd)
    → c.status ≡ progress_cmd
    → i.info0 || i.err6 ≡ true
    → let (c', ws, r) = handle_irq regs free i c in
      (c'.status ≡ (
        if i.err6
        then cmd_timeout
        else if has_error i
        then cmd_error
        else if c.flags.has_data
        then if free then if i.err5 then data_error else success else progress_data
        else success))
      × (r ≡ (
          if c.flags.has_data && (not (i.err6 || has_error i) && not free)
          then throws eio
          else done tt))
unfolding handle_irq handle_irq_cmd handle_irq_data cmd_fetch_response
sdhi_handle_irq_lem regs free i c s h = (ground (arith, s, h), ground (arith, s, h))

-- an interrupt that says nothing of the response
abbrev pub IsQuiet : SdInfo → Type 0
IsQuiet i = i.info0 || i.err6 ≡ false

abbrev pub AllQuiet : List SdInfo → Type 0
AllQuiet [] = Unit {0}
AllQuiet (i ∷ is) = IsQuiet i × AllQuiet is

wait_ends :
    (is : List SdInfo) (c : Cmd) → in_cmd_phase c ≡ false → cmd_wait_cmd_finished is c ≡ some c
unfolding cmd_wait_cmd_finished
wait_ends [] c n = rw n refl
wait_ends (i ∷ is) c n = rw n refl

quiet_step : (c : Cmd) (i : SdInfo) → IsQuiet i → (handle_irq_cmd c i).0 ≡ c
unfolding handle_irq_cmd
quiet_step c i q = rw q refl

last_step :
    (c : Cmd) (i : SdInfo)
    → i.info0 || i.err6 ≡ true
    → (handle_irq_cmd c i).0 ≡ record c { status = cmd_result i c }
unfolding handle_irq_cmd
last_step c i h = ground (arith, h)

result_ends : (c : Cmd) (i : SdInfo) → in_cmd_phase (record c { status = cmd_result i c }) ≡ false
result_ends c i = ground arith

-- The wait for the end of the command phase ends with the first interrupt that reports a response or
-- its timeout, whatever comes before and after it, and the command then has the status that this
-- interrupt gives it.
pub sdhi_cmd_wait_lem :
    (before after : List SdInfo) (i : SdInfo) (c : Cmd)
    → c.status ≡ progress_cmd
    → AllQuiet before
    → i.info0 || i.err6 ≡ true
    → cmd_wait_cmd_finished (before ++ i ∷ after) c ≡ some (record c { status = cmd_result i c })
unfolding cmd_wait_cmd_finished
sdhi_cmd_wait_lem [] after i c s q h =
    rw (ap phase s, last_step c i h)
      (wait_ends after (record c { status = cmd_result i c }) (result_ends c i))
sdhi_cmd_wait_lem (b ∷ before) after i c s q h =
    rw (ap phase s, quiet_step c b q.0) (sdhi_cmd_wait_lem before after i c s q.1 h)

-- The four words of a 136-bit response are the 128-bit register shifted by 8 bits.
pub sdhi_fetch_response_lem :
    (regs : RspRegs) (c : Cmd)
    → test_bit c.cmd 10 ≡ true
    → regs.rsp10 < 2 ^ 32
    → regs.rsp32 < 2 ^ 32
    → regs.rsp54 < 2 ^ 32
    → regs.rsp76 < 2 ^ 32
    → let r = cmd_fetch_response regs c in
      r.resp0 * 2 ^ 96 + r.resp1 * 2 ^ 64 + r.resp2 * 2 ^ 32 + r.resp3
      ≡ ((regs.rsp76 * 2 ^ 96 + regs.rsp54 * 2 ^ 64 + regs.rsp32 * 2 ^ 32 + regs.rsp10) * 2 ^ 8)
        % 2 ^ 128
unfolding cmd_fetch_response
sdhi_fetch_response_lem regs c t a b d e = ground (arith, t, a, b, d, e)
