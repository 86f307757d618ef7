-- ===== src/Sdhci/Submit/Send.antt =====
-- cmd_submit() of server/src/drv_sdhci-impl.h, with the helpers for tuning commands, the DMA address
-- and the size of the data.
use emmc_driver.Base.{
  ℕ, ◌+◌, ◌/◌, ◌%◌, ◌^◌, Bool, true, false, not, ◌&&◌, ◌||◌, List, [], ◌∷◌, ◌++◌, Outcome, done,
  throws, einval, ◌==◌, if◌then◌else◌,
}
use emmc_driver.Mmc.{
  test_bit, cmd12_stop_transmission_rd, cmd12_stop_transmission_wr, cmd19_send_tuning_block,
}
use emmc_driver.Cmd.{Cmd, cmd_idx, is_ready, progress_cmd}
use emmc_driver.Sdhci.{iproc, bcm2711, SdhciType, plain, usdhc, is_usdhc, is_tuning, with_status}
use emmc_driver.Sdhci.Submit.{
  SubmitConf, Resp, no, length_136, length_48, length_48_check_busy, XferTyp, MixCtrl, Enabled,
  Effect, wtmk_lvl, cmd_arg, cmd_arg2, adma_sys_addr_lo, adma_sys_addr_hi, ds_addr, blk_att,
  blk_size, wait_data_line, execute_tuning, tune_on, clear_irqs, status_en, signal_en, mix_ctrl,
  xfer_typ, Prepared, no_dma_addr, also, without_dma, suppress_cc_ints, auto_cmd12,
}
use emmc_driver.Sdhci.Submit.Prepare.{cmd_submit_prepare_dma}

abbrev pub tuning_size : Cmd → ℕ
tuning_size c = if c.cmd == cmd19_send_tuning_block then 64 else 128

-- the registers of iproc and bcm2711
abbrev pub tune_host_ctrl2 : ℕ → Prepared → Prepared
tune_host_ctrl2 n p = record (also p (blk_size 0 n 7 ∷ wtmk_lvl n ∷ tune_on ∷ [])) {
  xt = record (p.xt) { dtdsel = true; dpsel = true };
}

-- the registers of a type of controller
abbrev pub tune : SdhciType → ℕ → Prepared → Prepared
tune usdhc n p = record (also p (blk_att 1 n ∷ wtmk_lvl n ∷ execute_tuning ∷ [])) {
  xt = record (p.xt) { dpsel = true };
  mc = record (p.mc) {
    dmaen = false;
    bcen = false;
    ac12en = false;
    dtdsel = true;
    msbsel = false;
    ac23en = false;
    auto_tune_en = true;
    fbclk_sel = true;
  };
}
tune plain n p = record (also p (blk_size 0 n 7 ∷ wtmk_lvl n ∷ [])) {
  xt = record (p.xt) { ac12en = false; dtdsel = true; dpsel = true };
}
tune iproc n p = tune_host_ctrl2 n p
tune bcm2711 n p = tune_host_ctrl2 n p

unfoldable pub cmd_submit_handle_tuning : SubmitConf → Prepared → Prepared
cmd_submit_handle_tuning cf p = tune cf.type (tuning_size p.cmd) p

abbrev pub set_auto_cmd23_xt : Bool → Prepared → Prepared
set_auto_cmd23_xt b p =
    let q = also p (cmd_arg2 p.cmd.blockcnt ∷ []) in
    if b
    then record q { xt = record (q.xt) { ac23en = true } }
    else record p { xt = record (p.xt) { ac23en = false } }

-- Auto CMD23 in ADMA2 mode; Reg_cmd_arg2 holds the number of blocks.
abbrev pub set_auto_cmd23 : SdhciType → Bool → Prepared → Prepared
set_auto_cmd23 plain b p = p
set_auto_cmd23 usdhc b p =
    let q = also p (wait_data_line ∷ cmd_arg2 p.cmd.blockcnt ∷ []) in
    if b
    then record q { mc = record (q.mc) { ac23en = true } }
    else record p { mc = record (p.mc) { ac23en = false } }
set_auto_cmd23 iproc b p = set_auto_cmd23_xt b p
set_auto_cmd23 bcm2711 b p = set_auto_cmd23_xt b p

unfoldable pub cmd_submit_set_dma_addr : SubmitConf → ℕ → Prepared → Prepared
cmd_submit_set_dma_addr cf addr p =
    if cf.adma2
    then also (set_auto_cmd23 cf.type p.cmd.flags.auto_cmd23 p)
        (adma_sys_addr_lo (addr % 2 ^ 32) ∷ adma_sys_addr_hi (addr / 2 ^ 32) ∷ [])
    else also p
        ((if is_usdhc cf.type then wait_data_line ∷ [] else []) ++ ds_addr (addr % 2 ^ 32) ∷ [])

-- The bits of `blksize` in Reg_blk_att of a uSDHC and in Reg_blk_size.
abbrev pub blksize_bits : SdhciType → ℕ
blksize_bits type = if is_usdhc type then 13 else 12

-- Reg_blk_att or Reg_blk_size; `Bndry_512k` is 7.
abbrev pub write_size : SdhciType → ℕ → ℕ → Effect
write_size type count size = if is_usdhc type then blk_att count size else blk_size count size 7

-- a number, as its register field of `bits` bits holds it, is the number itself
abbrev pub fits : ℕ → ℕ → Bool
fits bits n = n % 2 ^ bits == n

unfoldable pub cmd_submit_set_block_size_and_count :
    SubmitConf → Prepared → Prepared × Outcome (Unit {0})
cmd_submit_set_block_size_and_count cf p =
    if not (fits 16 p.cmd.blockcnt)
    then (p, throws einval)
    else if not (fits (blksize_bits cf.type) p.cmd.blocksize)
    then (p, throws einval)
    else (
      also p (
          write_size cf.type (p.cmd.blockcnt % 2 ^ 16) (p.cmd.blocksize % 2 ^ blksize_bits cf.type)
          ∷ []),
      done tt,
    )

abbrev pub resp_type : Cmd → Resp
resp_type c =
    if test_bit c.cmd 10
    then length_136
    else if test_bit c.cmd 11
    then length_48_check_busy
    else if test_bit c.cmd 8
    then length_48
    else no

-- `xt` before the memory is looked at
unfoldable pub command_fields : Cmd → XferTyp
command_fields c = record {
  cmdinx = cmd_idx c;
  abort = (c.cmd == cmd12_stop_transmission_rd) || (c.cmd == cmd12_stop_transmission_wr);
  dpsel = false;
  cicen = test_bit c.cmd 12;
  cccen = test_bit c.cmd 9;
  rsptyp = resp_type c;
  msbsel = false;
  dtdsel = false;
  ac23en = false;
  ac12en = false;
  bcen = false;
  dmaen = false;
}

-- Reg_int_status_en::enable_ints(), with what cmd_submit() adds
abbrev pub enabled_status : SdhciType → Cmd → Enabled
enabled_status type c = record {
  cc = true;
  ac12e = (auto_cmd12 && c.flags.inout_cmd12) || c.flags.auto_cmd23;
  brr = is_tuning c || without_dma type c;
  bwr = without_dma type c;
}

-- Reg_int_signal_en::enable_ints()
abbrev pub enabled_signals : Cmd → Enabled
enabled_signals c = record {
  cc = if suppress_cc_ints then not c.flags.has_data else true;
  ac12e = (auto_cmd12 && c.flags.inout_cmd12) || c.flags.auto_cmd23;
  brr = is_tuning c;
  bwr = false;
}

abbrev pub Submitted : Type 0
Submitted = Cmd × List Effect × Outcome (Unit {0})

-- the writes from Reg_cmd_arg on
abbrev pub final_writes : Bool → SdhciType → Prepared → List Effect
final_writes with_mc type p =
    cmd_arg p.cmd.arg
      ∷ clear_irqs
      ∷ status_en (enabled_status type p.cmd)
      ∷ signal_en (enabled_signals p.cmd)
      ∷ (if with_mc then mix_ctrl p.mc ∷ [] else [])
    ++ xfer_typ p.xt ∷ []

abbrev pub send : SubmitConf → Prepared × Outcome (Unit {0}) → Submitted
send cf (p, throws e) = (p.cmd, p.effects, throws e)
send cf (p, done u) = (
  with_status p.cmd progress_cmd,
  p.effects ++ final_writes (is_usdhc cf.type) cf.type p,
  done tt,
)

abbrev pub handle_tuning : SubmitConf → Prepared → Prepared
handle_tuning cf p = if is_tuning p.cmd then cmd_submit_handle_tuning cf p else p

abbrev pub set_dma : SubmitConf → Prepared → Prepared × Outcome (Unit {0})
set_dma cf p =
    if p.dma_addr == no_dma_addr
    then (p, done tt)
    else cmd_submit_set_block_size_and_count cf
        (cmd_submit_set_dma_addr cf ((p.dma_addr + cf.adma.dma_offset) % 2 ^ 64) p)

abbrev pub after_prepare : SubmitConf → Prepared × Outcome (Unit {0}) → Submitted
after_prepare cf (p, throws e) = (p.cmd, p.effects, throws e)
after_prepare cf (p, done u) = send cf (set_dma cf (handle_tuning cf p))

-- `mc` is what Reg_mix_ctrl of a uSDHC held.
unfoldable pub cmd_submit : SubmitConf → MixCtrl → Cmd → Submitted
cmd_submit cf mc c =
    if is_ready c.status
    then after_prepare cf (
        cmd_submit_prepare_dma cf (record {
          cmd = c;
          xt = command_fields c;
          mc = mc;
          effects = [];
          dma_addr = no_dma_addr;
        }))
    else (c, [], throws einval)
