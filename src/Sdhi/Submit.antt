-- ===== src/Sdhi/Submit.antt =====
-- Sdhi::cmd_submit() of server/src/drv_sdhi.cc: what is written is a list of effects, in order.
use emmc_driver.Base.{
  ℕ, ◌+◌, ◌*◌, ◌/◌, ◌%◌, ◌^◌, Bool, true, false, not, ◌&&◌, List, [], ◌∷◌, ◌++◌, Option, none, some,
  Outcome, done, throws, einval, eio, ltb, ◌==◌, if◌then◌else◌,
}
use emmc_driver.Mmc.{test_bit, resp_r1, resp_r1b, resp_r2, resp_r3}
use emmc_driver.Cmd.{Cmd, Block, cmd_idx, is_ready, progress_cmd}

-- Reg_sd_cmd::Mode
pub data RespMode : Type 0 where
  mode_none mode_r1 mode_r1b mode_r2 mode_r3 : RespMode

-- Reg_sd_cmd
pub record SdCmd : Type 0 where
  pub cf : ℕ
  pub mode : RespMode
  pub md3 : Bool
  pub md4 : Bool
  pub md5 : Bool

-- `sd_stop` is `sec` of Reg_sd_stop, `clear_dm_info1` writes 0 to Reg_dm_cm_info1, `dma_rw` is
-- `dmasdrw` of Reg_cc_ext_mode. `dtran_mode` selects the channel that reads, or the one that
-- writes, with 64 bits and increasing addresses; `unmask_channel` clears its masks in
-- Reg_dm_cm_info1_mask and Reg_dm_cm_info2_mask.
pub data Effect : Type 0 where
  sd_size sd_seccnt dtran_addr sd_arg : ℕ → Effect
  sd_stop dma_rw dtran_mode unmask_channel : Bool → Effect
  clear_dm_info1 enable_ints : Effect
  sd_cmd : SdCmd → Effect

-- For which registers Reg::write() first waits that Reg_sd_info no longer says `cbsy`.
abbrev pub polls_busy : Effect → Bool
polls_busy (sd_size n) = true
polls_busy (sd_stop b) = true
polls_busy (sd_seccnt n) = true
polls_busy (dma_rw b) = true
polls_busy (sd_cmd x) = true
polls_busy e = false

abbrev pub next_poll : Effect → ℕ → ℕ
next_poll e n = if polls_busy e then n + 1 else n

-- Reg::write() of each effect, up to the first whose wait times out; `ready n` says whether the
-- controller is free in time at wait `n`.
unfoldable pub write_all : (ℕ → Bool) → ℕ → List Effect → List Effect × Outcome (Unit {0})
write_all ready n [] = ([], done tt)
write_all ready n (e ∷ es) =
    let (ws, r) = write_all ready (next_poll e n) es in
    if polls_busy e && not (ready n) then ([], throws eio) else (e ∷ ws, r)

-- `cmd->cmd & Mmc::Rsp_mask`, the bits 8 to 12
abbrev pub rsp_bits : ℕ → ℕ
rsp_bits raw = (raw / 2 ^ 8) % 2 ^ 5 * 2 ^ 8

unfoldable pub resp_mode : ℕ → Option RespMode
resp_mode raw =
    if rsp_bits raw == 0
    then some mode_none
    else if rsp_bits raw == resp_r1
    then some mode_r1
    else if rsp_bits raw == resp_r1b
    then some mode_r1b
    else if rsp_bits raw == resp_r2
    then some mode_r2
    else if rsp_bits raw == resp_r3
    then some mode_r3
    else none

-- `cmd->blocks ? cmd->blocks->dma_addr : cmd->data_phys`, in 32 bits
abbrev pub memory : List Block → ℕ → ℕ
memory [] phys = phys % 2 ^ 32
memory (b ∷ bs) phys = b.dma_addr % 2 ^ 32

abbrev pub data_effects : Cmd → List Effect
data_effects c =
    sd_size (c.blocksize % 2 ^ 10)
    ∷ sd_stop (ltb 1 c.blockcnt)
    ∷ sd_seccnt c.blockcnt
    ∷ clear_dm_info1
    ∷ dma_rw true
    ∷ dtran_mode (test_bit c.cmd 13)
    ∷ dtran_addr (memory c.blocks c.data_phys)
    ∷ unmask_channel (test_bit c.cmd 13)
    ∷ []

abbrev pub sd_cmd_of : Cmd → RespMode → SdCmd
sd_cmd_of c m = record {
  cf = cmd_idx c;
  mode = m;
  md3 = c.flags.has_data;
  md4 = if c.flags.has_data then test_bit c.cmd 13 else false;
  md5 = if c.flags.has_data then ltb 1 c.blockcnt else false;
}

abbrev pub Submitted : Type 0
Submitted = Cmd × List Effect × Outcome (Unit {0})

-- The status changes when all is written.
abbrev pub sent_with : Cmd → List Effect × Outcome (Unit {0}) → Submitted
sent_with c (es, done u) = (record c { status = progress_cmd }, es, done u)
sent_with c (es, throws e) = (c, es, throws e)

-- What every command writes in the end.
abbrev pub cmd_effects : Cmd → RespMode → List Effect
cmd_effects c m = enable_ints ∷ sd_arg c.arg ∷ sd_cmd (sd_cmd_of c m) ∷ []

-- with the response mode that was found; `len` of Reg_sd_size has 10 bits
abbrev pub submit_mode : (ℕ → Bool) → Cmd → Option RespMode → Submitted
submit_mode ready c none = (c, [], throws einval)
submit_mode ready c (some m) =
    if c.flags.has_data
    then if not (c.blocksize % 2 ^ 10 == c.blocksize)
      then (c, [], throws einval)
      else sent_with c (write_all ready 0 (data_effects c ++ cmd_effects c m))
    else sent_with c (write_all ready 0 (cmd_effects c m))

unfoldable pub cmd_submit : (ℕ → Bool) → Cmd → Submitted
cmd_submit ready c =
    if is_ready c.status then submit_mode ready c (resp_mode c.cmd) else (c, [], throws einval)
