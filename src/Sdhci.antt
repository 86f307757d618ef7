-- ===== src/Sdhci.antt =====
-- server/src/drv_sdhci-impl.h and server/src/drv_sdhci.h: interrupts of the SDHCI controllers. What
-- the handlers read of the controller is an argument, what they write is a list.
pub mod Irq
pub mod Setup
pub mod Response
pub mod Submit
pub mod Fields
pub mod Init
pub mod Ready
pub mod Exec
pub mod Executed
mod Tests
use emmc_driver.Base.{
  ℕ, ◌+◌, ◌-◌, ◌*◌, ◌/◌, ◌%◌, ◌^◌, Bool, true, false, not, ◌&&◌, ◌||◌, List, [], ◌∷◌, ◌++◌, Outcome,
  done, throws, einval, ◌==◌, if◌then◌else◌,
}
use emmc_driver.Mmc.{test_bit, cmd19_send_tuning_block, cmd21_send_tuning_block}
use emmc_driver.Cmd.{
  Cmd, Flags, Status, success, progress_cmd, progress_data, tuning_progress, cmd_timeout, cmd_error,
  data_error, tuning_failed, is_error,
}

-- Sdhci_type
pub data SdhciType : Type 0 where
  plain usdhc iproc bcm2711 : SdhciType

abbrev pub is_usdhc : SdhciType → Bool
is_usdhc usdhc = true
is_usdhc _ = false

-- The bits of Reg_int_status that the handlers read or write.
pub record IntStatus : Type 0 where
  pub dmae : Bool
  pub admae : Bool
  pub ac12e : Bool
  pub debe : Bool
  pub dce : Bool
  pub dtoe : Bool
  pub cie : Bool
  pub cebe : Bool
  pub cce : Bool
  pub ctoe : Bool
  pub brr : Bool
  pub bwr : Bool
  pub dint : Bool
  pub tc : Bool
  pub cc : Bool

abbrev pub no_ints : IntStatus
no_ints = record {
  dmae = false;
  admae = false;
  ac12e = false;
  debe = false;
  dce = false;
  dtoe = false;
  cie = false;
  cebe = false;
  cce = false;
  ctoe = false;
  brr = false;
  bwr = false;
  dint = false;
  tc = false;
  cc = false;
}

-- IntStatus::cmd_error()
abbrev pub has_cmd_error : IntStatus → Bool
has_cmd_error is = is.cie || (is.cebe || is.cce)

-- IntStatus::data_error()
abbrev pub has_data_error : IntStatus → Bool
has_data_error is = is.debe || (is.dce || (is.dtoe || (is.dmae || is.admae)))

abbrev pub copy_cmd_error : IntStatus → IntStatus
copy_cmd_error other = record no_ints { cie = other.cie; cebe = other.cebe; cce = other.cce }

abbrev pub copy_data_error : IntStatus → IntStatus
copy_data_error other = record no_ints {
  debe = other.debe;
  dce = other.dce;
  dtoe = other.dtoe;
  admae = other.admae;
  dmae = other.dmae;
}

-- `is_ack.raw`, as a condition
abbrev pub any_int : IntStatus → Bool
any_int a =
    has_cmd_error a
    || (has_data_error a
        || (a.ac12e || (a.ctoe || (a.brr || (a.bwr || (a.dint || (a.tc || a.cc)))))))

-- Registers that the handlers read besides Reg_int_status, and what waiting for the end of a reset
-- comes to.
pub record Regs : Type 0 where
  pub cihb : Bool
  pub execute_tuning : Bool
  pub smp_clk_sel : Bool
  pub blkcnt : ℕ
  pub rsp0 : ℕ
  pub rsp1 : ℕ
  pub rsp2 : ℕ
  pub rsp3 : ℕ
  pub poll_reset : Outcome (Unit {0})

-- What they write: Reg_int_status, `cihb` of Reg_pres_state, `rstc` or `rstd` of Reg_sys_ctrl,
-- Reg_ds_addr; and the accesses to the data port, for as many bytes.
pub data Write : Type 0 where
  ack : IntStatus → Write
  clear_cihb reset_cmd reset_data : Write
  ds_addr read_port write_port : ℕ → Write

abbrev pub Handled : Type 0
Handled = Cmd × List Write × Outcome (Unit {0})

abbrev pub is_tuning : Cmd → Bool
is_tuning c = (c.cmd == cmd19_send_tuning_block) || (c.cmd == cmd21_send_tuning_block)

abbrev pub with_status : Cmd → Status → Cmd
with_status c s = record c { status = s }

-- the end of both handlers: the acknowledgement, and the reset after an error
abbrev pub finish : Regs → Write → IntStatus → Cmd → List Write → Handled
finish regs reset is_ack c ws =
    if is_error c.status
    then (c, ws ++ acks ++ reset ∷ [], regs.poll_reset)
    else (c, ws ++ acks, done tt)
  where
    acks : List Write
    acks = if any_int is_ack then ack is_ack ∷ [] else []

unfoldable pub handle_irq_cmd : SdhciType → Regs → IntStatus → Cmd → Handled
handle_irq_cmd type regs is c =
    if is.ctoe
    then finish regs reset_cmd (record no_ints { ctoe = true; cc = is.cc })
        (with_status c cmd_timeout) (if is_usdhc type && regs.cihb then clear_cihb ∷ [] else [])
    else if has_cmd_error is
    then finish regs reset_cmd (copy_cmd_error is) (with_status c cmd_error) []
    else if is.ac12e
    then finish regs reset_cmd no_ints (with_status c cmd_error) []
    else if is_tuning c
    then finish regs reset_cmd (record no_ints { cc = is.cc; brr = is.brr })
        (if is.brr then with_status c tuned else c)
        (if is.cc then ack (record no_ints { cc = true }) ∷ [] else [])
    else if is.cc
    then finish regs reset_cmd (record no_ints { cc = true })
        (with_status c (if c.flags.has_data then progress_data else success)) []
    else finish regs reset_cmd no_ints c []
  where
    tuned : Status
    tuned =
        if regs.execute_tuning
        then tuning_progress
        else if regs.smp_clk_sel
        then success
        else tuning_failed

-- `cmd` when the controller stopped at a buffer boundary with `left` blocks to go, in 32 bits
abbrev pub restarted : Cmd → ℕ → Cmd
restarted c left = record c {
  blockcnt = (c.blockcnt + (2 ^ 32 - xferred)) % 2 ^ 32;
  data_phys = (c.data_phys + xferred * c.blocksize) % 2 ^ 32;
}
  where
    xferred : ℕ
    xferred = (c.blockcnt + (2 ^ 32 - left)) % 2 ^ 32

-- The end of a DMA transfer, or of a part of it.
abbrev pub handle_dint : Regs → Bool → Cmd → Handled
handle_dint regs adma2 c =
    if regs.blkcnt == 0
    then finish regs reset_data (record no_ints { dint = true }) c []
    else if adma2
    then (c, [], throws einval)
    else finish regs reset_data no_ints (restarted c regs.blkcnt)
        (ack (record no_ints { dint = true }) ∷ ds_addr (restarted c regs.blkcnt).data_phys ∷ [])

unfoldable pub handle_irq_data : Regs → Bool → IntStatus → Cmd → Handled
handle_irq_data regs adma2 is c =
    if has_data_error is
    then finish regs reset_data (copy_data_error is) (with_status c data_error) []
    else if is.tc
    then finish regs reset_data (record no_ints { tc = true; dint = is.dint })
        (with_status c success) []
    else if is.dint
    then handle_dint regs adma2 c
    else if is.brr
    then finish regs reset_data (record no_ints { brr = true }) c (read_port c.blocksize ∷ [])
    else if is.bwr
    then finish regs reset_data (record no_ints { bwr = true }) c (write_port c.blocksize ∷ [])
    else finish regs reset_data no_ints c []

-- The response registers; a response of 136 bits is shifted, for its checksum is left out. What the
-- read copies from the bounce buffer is `Adma.fetch_bounced`.
unfoldable pub fetch_response : Regs → Cmd → Cmd
fetch_response regs c =
    if test_bit c.cmd 10
    then record c {
      resp0 = (regs.rsp3 * 2 ^ 8) % 2 ^ 32 + regs.rsp2 / 2 ^ 24;
      resp1 = (regs.rsp2 * 2 ^ 8) % 2 ^ 32 + regs.rsp1 / 2 ^ 24;
      resp2 = (regs.rsp1 * 2 ^ 8) % 2 ^ 32 + regs.rsp0 / 2 ^ 24;
      resp3 = (regs.rsp0 * 2 ^ 8) % 2 ^ 32;
    }
    else record c { resp0 = regs.rsp0; flags = record (c.flags) { has_r1_response = true } }

abbrev pub in_cmd_phase : Cmd → Bool
in_cmd_phase c = elim (c.status) [ progress_cmd ↦ true | _ ↦ false ]

abbrev pub in_data_phase : Cmd → Bool
in_data_phase c = elim (c.status) [ progress_data ↦ true | _ ↦ false ]

abbrev pub is_done_with : Cmd → Bool
is_done_with c = elim (c.status) [ success ↦ true | _ ↦ false ]

-- the phase behind the command phase, with the status that was read at the beginning
abbrev pub after_cmd : Regs → Bool → IntStatus → Handled → Handled
after_cmd regs adma2 is (c, ws, throws e) = (c, ws, throws e)
after_cmd regs adma2 is (c, ws, done u) =
    let (c', ws', r) = handle_irq_data regs adma2 is c in
    if in_data_phase c then (c', ws ++ ws', r) else (c, ws, done u)

abbrev pub respond : Regs → Handled → Handled
respond regs (c, ws, throws e) = (c, ws, throws e)
respond regs (c, ws, done u) = (if is_done_with c then fetch_response regs c else c, ws, done u)

-- Sdhci::handle_irq() with a command that is worked on.
unfoldable pub handle_irq : SdhciType → Regs → Bool → IntStatus → Cmd → Handled
handle_irq type regs adma2 is c = respond regs (
    after_cmd regs adma2 is
      (if in_cmd_phase c then handle_irq_cmd type regs is c else (c, [], done tt)))
