-- ===== src/Sdhci/Submit.antt =====
-- Sdhci::cmd_submit() of server/src/drv_sdhci-impl.h: the registers by which a command reaches the
-- controller. What is written is a list of effects, in order; a register that is built up field by
-- field is a record, with the fields that the code writes.
pub mod Prepare
pub mod Send
pub mod Kept
pub mod Sent
pub mod Queue
pub mod Size
mod Tests
use emmc_driver.Base.{
  ℕ, ◌+◌, ◌-◌, ◌*◌, ◌/◌, ◌%◌, ◌^◌, Bool, true, false, not, ◌&&◌, ◌||◌, List, [], ◌∷◌, ◌++◌, Outcome,
  done, throws, einval, ltb, leb, ◌==◌, if◌then◌else◌, is_done,
}
use emmc_driver.Mmc.{
  test_bit, cmd12_stop_transmission_rd, cmd12_stop_transmission_wr, cmd19_send_tuning_block,
}
use emmc_driver.Cmd.{Cmd, cmd_idx, is_ready, progress_cmd, Block}
use emmc_driver.Adma.{
  Conf, Desc, Copy, Table, rounds, adma2_set_descs, adma2_set_descs_mem_region, dma_accessible,
  provided_bounce_buffer,
}
use emmc_driver.Sdhci.{SdhciType, plain, usdhc, iproc, bcm2711, is_usdhc, is_tuning, with_status}

-- Suppress_cc_ints, Auto_cmd12 and No_dma_during_setup
abbrev pub suppress_cc_ints : Bool
suppress_cc_ints = true

abbrev pub auto_cmd12 : Bool
auto_cmd12 = false

abbrev pub no_dma_during_setup : Bool
no_dma_during_setup = false

-- `type` is the template's parameter, `adma2` is dma_adma2().
pub record SubmitConf : Type 0 where
  pub type : SdhciType
  pub adma2 : Bool
  pub adma : Conf
  pub adma2_desc_phys : ℕ

-- Reg_cmd_xfr_typ::Resp
pub data Resp : Type 0 where
  no length_136 length_48 length_48_check_busy : Resp

-- Reg_cmd_xfr_typ; `abort` is the type `Cmd52_abort`.
pub record XferTyp : Type 0 where
  pub cmdinx : ℕ
  pub abort : Bool
  pub dpsel : Bool
  pub cicen : Bool
  pub cccen : Bool
  pub rsptyp : Resp
  pub msbsel : Bool
  pub dtdsel : Bool
  pub ac23en : Bool
  pub ac12en : Bool
  pub bcen : Bool
  pub dmaen : Bool

-- Reg_mix_ctrl
pub record MixCtrl : Type 0 where
  pub dmaen : Bool
  pub bcen : Bool
  pub ac12en : Bool
  pub dtdsel : Bool
  pub msbsel : Bool
  pub ac23en : Bool
  pub auto_tune_en : Bool
  pub fbclk_sel : Bool

-- What enable_ints() makes depend on the command in Reg_int_status_en and Reg_int_signal_en; the
-- other interrupts of a command are always enabled.
pub record Enabled : Type 0 where
  pub cc : Bool
  pub ac12e : Bool
  pub brr : Bool
  pub bwr : Bool

-- `wait_data_line` is the loop until `dla` of Reg_pres_state is clear. `wtmk_lvl` sets both levels
-- of Reg_wtmk_lvl, and both burst lengths to `Brst_dma`.
pub data Effect : Type 0 where
  wtmk_lvl cmd_arg cmd_arg2 adma_sys_addr_lo adma_sys_addr_hi ds_addr : ℕ → Effect
  blk_att : ℕ → ℕ → Effect
  blk_size : ℕ → ℕ → ℕ → Effect
  write_descs : List Desc → Effect
  copy_in : List Copy → Effect
  wait_data_line execute_tuning tune_on clear_irqs : Effect
  status_en signal_en : Enabled → Effect
  mix_ctrl : MixCtrl → Effect
  xfer_typ : XferTyp → Effect

-- The command and the two registers on their way through the helpers.
pub record Prepared : Type 0 where
  pub cmd : Cmd
  pub xt : XferTyp
  pub mc : MixCtrl
  pub effects : List Effect
  pub dma_addr : ℕ

-- `~0ULL`
abbrev pub no_dma_addr : ℕ
no_dma_addr = 2 ^ 64 - 1

abbrev pub also : Prepared → List Effect → Prepared
also p es = record p { effects = p.effects ++ es }

-- `No_dma_during_setup && ...`
abbrev pub without_dma : SdhciType → Cmd → Bool
without_dma type c =
    no_dma_during_setup
    && (c.flags.has_data
        && (not (c.data_virt == 0) && elim type [ iproc ↦ true | bcm2711 ↦ true | _ ↦ false ]))
