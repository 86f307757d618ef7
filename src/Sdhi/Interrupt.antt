-- ===== src/Sdhi/Interrupt.antt =====
-- Sdhi::handle_irq() of server/src/drv_sdhi.cc with its phases, the waits of the initialisation,
-- and the response. What is read of the controller is an argument, what is written is a list.
use emmc_driver.Base.{
  ℕ, ◌+◌, ◌*◌, ◌/◌, ◌%◌, ◌^◌, Bool, true, false, not, ◌&&◌, ◌||◌, List, [], ◌∷◌, ◌++◌, Option, none,
  some, Outcome, done, throws, eio, is_done, if◌then◌else◌,
}
use emmc_driver.Mmc.{test_bit}
use emmc_driver.Cmd.{
  Cmd, Status, success, progress_cmd, progress_data, cmd_timeout, cmd_error, data_error,
}

-- The bits of Reg_sd_info that the driver reads.
pub record SdInfo : Type 0 where
  pub ila : Bool
  pub cbsy : Bool
  pub sclkdiven : Bool
  pub bwe : Bool
  pub bre : Bool
  pub err6 : Bool
  pub err5 : Bool
  pub err3 : Bool
  pub err2 : Bool
  pub err1 : Bool
  pub err0 : Bool
  pub info0 : Bool

-- Reg_sd_info(), which reads no register
abbrev pub new_info : SdInfo
new_info = record {
  ila = false;
  cbsy = false;
  sclkdiven = false;
  bwe = false;
  bre = false;
  err6 = false;
  err5 = false;
  err3 = false;
  err2 = false;
  err1 = false;
  err0 = false;
  info0 = false;
}

-- Reg_sd_info::error()
abbrev pub has_error : SdInfo → Bool
has_error i = i.err0 || (i.err1 || (i.err2 || (i.err3 || (i.err6 || i.ila))))

-- The acknowledgements write 0 to the bits that they name and 1 to all others.
pub data Write : Type 0 where
  ack_response ack_buffer dm_start mask_access_end clear_dm_info1 dma_off : Write

abbrev pub with_status : Cmd → Status → Cmd
with_status c s = record c { status = s }

unfoldable pub handle_irq_cmd : Cmd → SdInfo → Cmd × List Write
handle_irq_cmd c i =
    if i.info0 || i.err6
    then if i.err6
      then (with_status c cmd_timeout, ack_response ∷ [])
      else if has_error i
      then (with_status c cmd_error, ack_response ∷ [])
      else if c.flags.has_data
      then (with_status c progress_data, ack_response ∷ dm_start ∷ [])
      else (with_status c success, ack_response ∷ [])
    else (c, [])

-- `done` of handle_irq_data(). In the branch for a write the register is read from a new variable,
-- which hides the argument.
abbrev pub data_done : Cmd → Bool
data_done c = if test_bit c.cmd 13 then true else new_info.sclkdiven || not new_info.cbsy

abbrev pub Handled : Type 0
Handled = Cmd × List Write × Outcome (Unit {0})

-- Reg_cc_ext_mode is written when the controller is not busy; `free` says whether it is in time.
abbrev pub end_data : Bool → Cmd → Handled
end_data free c =
    if data_done c
    then if free
      then (with_status c success, mask_access_end ∷ clear_dm_info1 ∷ dma_off ∷ [], done tt)
      else (c, mask_access_end ∷ clear_dm_info1 ∷ [], throws eio)
    else (c, [], done tt)

abbrev pub data_failed : SdInfo → Bool
data_failed i = i.err1 || (i.err2 || i.err5)

unfoldable pub handle_irq_data : Bool → Cmd → SdInfo → Handled
handle_irq_data free c i =
    let acks = if i.bre || i.bwe then ack_buffer ∷ [] else [] in
    let (c', ws, r) = end_data free c in
    (if is_done r && data_failed i then with_status c' data_error else c', acks ++ ws, r)

-- The response registers.
pub record RspRegs : Type 0 where
  pub rsp10 : ℕ
  pub rsp32 : ℕ
  pub rsp54 : ℕ
  pub rsp76 : ℕ

unfoldable pub cmd_fetch_response : RspRegs → Cmd → Cmd
cmd_fetch_response regs c =
    if test_bit c.cmd 10
    then record c {
      resp0 = (regs.rsp76 * 2 ^ 8) % 2 ^ 32 + regs.rsp54 / 2 ^ 24;
      resp1 = (regs.rsp54 * 2 ^ 8) % 2 ^ 32 + regs.rsp32 / 2 ^ 24;
      resp2 = (regs.rsp32 * 2 ^ 8) % 2 ^ 32 + regs.rsp10 / 2 ^ 24;
      resp3 = (regs.rsp10 * 2 ^ 8) % 2 ^ 32;
    }
    else record c { resp0 = regs.rsp10; flags = record (c.flags) { has_r1_response = true } }

abbrev pub in_cmd_phase : Cmd → Bool
in_cmd_phase c = elim (c.status) [ progress_cmd ↦ true | _ ↦ false ]

abbrev pub in_data_phase : Cmd → Bool
in_data_phase c = elim (c.status) [ progress_data ↦ true | _ ↦ false ]

abbrev pub is_done_with : Cmd → Bool
is_done_with c = elim (c.status) [ success ↦ true | _ ↦ false ]

abbrev pub handle_phases : Bool → SdInfo → Cmd → Handled
handle_phases free i c =
    let (c', ws) = if in_cmd_phase c then handle_irq_cmd c i else (c, []) in
    let (c'', ws', r) = if in_data_phase c' then handle_irq_data free c' i else (c', [], done tt) in
    (c'', ws ++ ws', r)

-- Sdhi::handle_irq() with a command that is worked on; `i` is what Reg_sd_info held.
unfoldable pub handle_irq : RspRegs → Bool → SdInfo → Cmd → Handled
handle_irq regs free i c =
    let (c', ws, r) = handle_phases free i c in
    (if is_done r && is_done_with c' then cmd_fetch_response regs c' else c', ws, r)

-- The loop of cmd_wait_cmd_finished(), with the interrupts that come and what Reg_sd_info holds at
-- each; `none` is a wait for more.
unfoldable pub cmd_wait_cmd_finished : List SdInfo → Cmd → Option Cmd
cmd_wait_cmd_finished [] c = if in_cmd_phase c then none else some c
cmd_wait_cmd_finished (i ∷ is) c =
    let rest = cmd_wait_cmd_finished is (handle_irq_cmd c i).0 in
    if in_cmd_phase c then rest else some c

abbrev pub go_on_waiting :
    Cmd → Outcome (Unit {0}) → Option (Cmd × Outcome (Unit {0})) → Option (Cmd × Outcome (Unit {0}))
go_on_waiting c (throws e) rest = some (c, throws e)
go_on_waiting c (done u) rest = rest

-- The loop of cmd_wait_data_finished(), also with whether the controller is free in time.
unfoldable pub cmd_wait_data_finished :
    List (SdInfo × Bool) → Cmd → Option (Cmd × Outcome (Unit {0}))
cmd_wait_data_finished [] c = if in_data_phase c then none else some (c, done tt)
cmd_wait_data_finished ((i, free) ∷ is) c =
    let (c', ws, r) = handle_irq_data free c i in
    let rest = cmd_wait_data_finished is c' in
    if in_data_phase c then go_on_waiting c' r rest else some (c, done tt)
