-- ===== src/Sdhci/Submit/Prepare.antt =====
-- cmd_submit_prepare_dma() of server/src/drv_sdhci-impl.h: the memory of a command's data, and what
-- the transfer registers say of it.
use emmc_driver.Base.{
  List, ℕ, ◌*◌, ◌%◌, ◌^◌, Bool, true, false, not, ◌&&◌, [], ◌∷◌, Outcome, done, throws, ltb,
  if◌then◌else◌, is_done,
}
use emmc_driver.Mmc.{test_bit}
use emmc_driver.Cmd.{Cmd, Block}
use emmc_driver.Adma.{
  Table, rounds, adma2_set_descs, adma2_set_descs_mem_region, dma_accessible,
  provided_bounce_buffer,
}
use emmc_driver.Sdhci.{is_usdhc}
use emmc_driver.Sdhci.Submit.{
  SubmitConf, wtmk_lvl, blk_size, write_descs, copy_in, Prepared, also, without_dma, auto_cmd12,
}

abbrev pub from_bounce_buffer : Cmd → Bool → Cmd
from_bounce_buffer c b =
    if b then record c { flags = record (c.flags) { read_from_bounce_buffer = true } } else c

-- adma2_set_descs_blocks()
abbrev pub set_descs : Cmd → Prepared → Table × Outcome (Unit {0}) → Prepared × Outcome (Unit {0})
set_descs c p (t, throws e) = (also p (copy_in t.copies ∷ write_descs t.descs ∷ []), throws e)
set_descs c p (t, done u) = (
  record (also p (copy_in t.copies ∷ write_descs t.descs ∷ [])) {
    cmd = from_bounce_buffer c (ltb 0 t.bb_offs && c.flags.inout_read);
  },
  done tt,
)

-- adma2_set_descs_memory_region() or adma2_set_descs_blocks(), by `cmd->blocks`
abbrev pub prepare_adma2 : SubmitConf → List Block → Prepared → Prepared × Outcome (Unit {0})
prepare_adma2 cf [] p =
    let (ds, r) =
      adma2_set_descs_mem_region cf.adma (rounds p.cmd.blocksize) 0 p.cmd.data_phys p.cmd.blocksize
        true in
    (also p (write_descs ds ∷ []), r)
prepare_adma2 cf (b ∷ bs) p =
    set_descs p.cmd p (adma2_set_descs cf.adma p.cmd.flags.inout_read 0 0 (b ∷ bs))

-- `cmd->blocksize * cmd->blockcnt`
abbrev pub blk_bytes : Cmd → ℕ
blk_bytes c = (c.blocksize * c.blockcnt) % 2 ^ 32

-- `dma_addr = cmd->data_phys = a`, where `data_phys` has 32 bits
abbrev pub at_phys : Prepared → ℕ → Prepared
at_phys p a = record p { cmd = record (p.cmd) { data_phys = a % 2 ^ 32 }; dma_addr = a % 2 ^ 32 }

abbrev pub prepare_sdma : SubmitConf → List Block → Prepared → Prepared
prepare_sdma cf [] p = record p { dma_addr = p.cmd.data_phys }
prepare_sdma cf (b ∷ bs) p =
    if provided_bounce_buffer cf.adma && not (dma_accessible cf.adma b.dma_addr (blk_bytes p.cmd))
    then if p.cmd.flags.inout_read
      then at_phys (record p { cmd = from_bounce_buffer p.cmd true }) cf.adma.bb_phys
      else at_phys
          (also p
            (copy_in (record { virt = b.virt_addr; offset = 0; size = blk_bytes p.cmd } ∷ []) ∷ []))
          cf.adma.bb_phys
    else at_phys p b.dma_addr

-- The end of cmd_submit_prepare_dma() for a command with data.
abbrev pub select_data : SubmitConf → Prepared → Prepared
select_data cf p =
    if is_usdhc cf.type
    then record p {
      xt = record (p.xt) { dpsel = true };
      mc = record (p.mc) {
        dmaen = true;
        bcen = ltb 1 p.cmd.blockcnt;
        msbsel = ltb 1 p.cmd.blockcnt;
        dtdsel = test_bit p.cmd.cmd 13;
      };
    }
    else record p {
      xt = record (p.xt) {
        dpsel = true;
        dmaen = true;
        bcen = ltb 1 p.cmd.blockcnt;
        msbsel = ltb 1 p.cmd.blockcnt;
        dtdsel = test_bit p.cmd.cmd 13;
      };
    }

-- The registers before the memory is looked at: `Wml_dma` is 64.
abbrev pub select_auto_cmd12 : SubmitConf → Prepared → Prepared
select_auto_cmd12 cf p =
    let b = auto_cmd12 && p.cmd.flags.inout_cmd12 in
    if is_usdhc cf.type
    then record (also p (wtmk_lvl 64 ∷ [])) { mc = record (p.mc) { ac12en = b } }
    else record p { xt = record (p.xt) { ac12en = b } }

abbrev pub select_no_data : SubmitConf → Prepared → Prepared
select_no_data cf p =
    if is_usdhc cf.type
    then record p { mc = record (p.mc) { ac12en = false; ac23en = false } }
    else record p { xt = record (p.xt) { ac12en = false; ac23en = false } }

abbrev pub select_port : Prepared → Prepared
select_port p = record (also p (blk_size p.cmd.blockcnt p.cmd.blocksize 0 ∷ [])) {
  xt = record (p.xt) {
    dpsel = true;
    bcen = ltb 1 p.cmd.blockcnt;
    msbsel = ltb 1 p.cmd.blockcnt;
    dtdsel = test_bit p.cmd.cmd 13;
  };
}

abbrev pub selected : SubmitConf → Prepared × Outcome (Unit {0}) → Prepared × Outcome (Unit {0})
selected cf (p, throws e) = (p, throws e)
selected cf (p, done u) = (select_data cf p, done u)

abbrev pub prepare_memory : SubmitConf → Prepared → Prepared × Outcome (Unit {0})
prepare_memory cf p =
    let (q, r) = prepare_adma2 cf p.cmd.blocks p in
    if cf.adma2
    then (if is_done r then record q { dma_addr = cf.adma2_desc_phys } else q, r)
    else (prepare_sdma cf p.cmd.blocks p, done tt)

unfoldable pub cmd_submit_prepare_dma : SubmitConf → Prepared → Prepared × Outcome (Unit {0})
cmd_submit_prepare_dma cf p =
    if without_dma cf.type p.cmd
    then (select_port p, done tt)
    else if p.cmd.flags.has_data
    then selected cf (prepare_memory cf (select_auto_cmd12 cf p))
    else (select_no_data cf p, done tt)
