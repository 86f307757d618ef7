-- ===== src/Layouts.antt =====
-- The registers of server/src/drv_sdhi.h, server/src/drv_sdhci.h and server/src/mmc.h, and which of
-- their fields have bits in common.
mod Shared
mod Tests
use Prim.Native.String.{String}
use emmc_driver.Base.{ℕ, ◌≡◌, refl, ◌⊎◌, inl, inr, Bool, true, false, List, [], ◌∷◌, ◌||◌, arith}
use emmc_driver.Reg.{Word, Field, Layout, read_field, write_field}
use emmc_driver.Reg.Ops.{◌!◌}
use emmc_driver.Reg.Laminar.{
  apart, every, Member, every-Member, is_settled, pair-is_settled, read_field-write_field,
}
use emmc_driver.Layouts.Shared.{shares}
use emmc_driver.Sdhi.Fields.{
  reg_sd_cmd, reg_sd_portsel, reg_sd_arg, reg_sd_stop, reg_sd_seccnt, reg_sd_rsp10, reg_sd_rsp1,
  reg_sd_rsp32, reg_sd_rsp3, reg_sd_rsp54, reg_sd_rsp5, reg_sd_rsp76, reg_sd_rsp7,
}
use emmc_driver.Sdhi.Fields.Card.{
  reg_sd_info, reg_sd_info_mask, reg_sd_clk_ctrl, reg_sd_size, reg_sd_option, reg_sd_err_sts1,
  reg_sd_err_sts2,
}
use emmc_driver.Sdhi.Fields.Dma.{
  reg_sdio_mode, reg_sdio_info1, reg_sdio_info1_mask, reg_cc_ext_mode, reg_soft_rst, reg_version,
  reg_host_mode, reg_sdif_mode, reg_dm_cm_dtran_mode, reg_dm_cm_dtran_ctrl, reg_dm_cm_rst,
  reg_dm_cm_info1, reg_dm_cm_info1_mask, reg_dm_cm_info2, reg_dm_cm_info2_mask, reg_dm_cm_seq_stat,
  reg_dm_dtran_addr,
}
use emmc_driver.Sdhci.Fields.{
  reg_blk_att, reg_blk_size, reg_cmd_xfr_typ, reg_pres_state, reg_prot_ctrl,
}
use emmc_driver.Sdhci.Fields.Control.{reg_host_ctrl, reg_sys_ctrl, reg_int_status}
use emmc_driver.Sdhci.Fields.Enable.{
  reg_int_status_en, reg_int_signal_en, reg_autocmd12_err_status, reg_host_ctrl2,
}
use emmc_driver.Sdhci.Fields.Caps.{
  reg_host_ctrl_cap, reg_cap1_sdhci, reg_wtmk_lvl, reg_cap2_sdhci, reg_mix_ctrl, reg_max_current,
  reg_max_current2, reg_adma_err_status,
}
use emmc_driver.Sdhci.Fields.Vendor.{
  reg_clk_tune_ctrl_status, reg_strobe_dll_ctrl, reg_strobe_dll_status, reg_vend_spec,
  reg_vend_spec2, reg_tuning_ctrl, reg_host_version,
}
use emmc_driver.Mmc.Fields.{device_status, reg_cid_mmc, reg_cid_sd}
use emmc_driver.Mmc.Fields.Csd.{reg_csd_s3, reg_csd_s1, reg_csd_s0}
use emmc_driver.Mmc.Fields.Ext.{
  reg_ocr, rsp_r4, rsp_r7, ec32_flush_cache, ec33_cache_ctrl, ec34_power_off_notification,
  ec161_hpi_mgmt, ec163_bkops_en, ec175_erase_group_def, ec179_partition_config, ec183_bus_width,
  ec185_hs_timing, ec196_device_type, ec197_driver_strength, ec308_cmdq_support,
}
use emmc_driver.Mmc.Fields.SdCard.{reg_scr, reg_ssr, reg_switch_func}
use emmc_driver.Mmc.Fields.Args.{
  arg_cmd5_sleep_aware, arg_cmd6_switch, arg_cmd6_switch_func, arg_cmd8_send_if_cond,
  arg_cmd23_set_block_count, arg_acmd6_sd_set_bus_width, arg_acmd41_sd_send_op,
  arg_cmd52_io_rw_direct,
}

abbrev pub sdhi_registers : List Layout
sdhi_registers =
    reg_sd_cmd ∷ reg_sd_portsel ∷ reg_sd_arg ∷ reg_sd_stop ∷ reg_sd_seccnt ∷ reg_sd_rsp10
    ∷ reg_sd_rsp1 ∷ reg_sd_rsp32 ∷ reg_sd_rsp3 ∷ reg_sd_rsp54 ∷ reg_sd_rsp5 ∷ reg_sd_rsp76
    ∷ reg_sd_rsp7 ∷ reg_sd_info ∷ reg_sd_info_mask ∷ reg_sd_clk_ctrl ∷ reg_sd_size ∷ reg_sd_option
    ∷ reg_sd_err_sts1 ∷ reg_sd_err_sts2 ∷ reg_sdio_mode ∷ reg_sdio_info1 ∷ reg_sdio_info1_mask
    ∷ reg_cc_ext_mode ∷ reg_soft_rst ∷ reg_version ∷ reg_host_mode ∷ reg_sdif_mode
    ∷ reg_dm_cm_dtran_mode ∷ reg_dm_cm_dtran_ctrl ∷ reg_dm_cm_rst ∷ reg_dm_cm_info1
    ∷ reg_dm_cm_info1_mask ∷ reg_dm_cm_info2 ∷ reg_dm_cm_info2_mask ∷ reg_dm_cm_seq_stat
    ∷ reg_dm_dtran_addr ∷ []

abbrev pub sdhci_registers : List Layout
sdhci_registers =
    reg_blk_att ∷ reg_blk_size ∷ reg_cmd_xfr_typ ∷ reg_pres_state ∷ reg_prot_ctrl ∷ reg_host_ctrl
    ∷ reg_sys_ctrl ∷ reg_int_status ∷ reg_int_status_en ∷ reg_int_signal_en
    ∷ reg_autocmd12_err_status ∷ reg_host_ctrl2 ∷ reg_host_ctrl_cap ∷ reg_cap1_sdhci ∷ reg_wtmk_lvl
    ∷ reg_cap2_sdhci ∷ reg_mix_ctrl ∷ reg_max_current ∷ reg_max_current2 ∷ reg_adma_err_status
    ∷ reg_clk_tune_ctrl_status ∷ reg_strobe_dll_ctrl ∷ reg_strobe_dll_status ∷ reg_vend_spec
    ∷ reg_vend_spec2 ∷ reg_tuning_ctrl ∷ reg_host_version ∷ []

abbrev pub card_registers : List Layout
card_registers =
    device_status ∷ reg_cid_mmc ∷ reg_cid_sd ∷ reg_csd_s3 ∷ reg_csd_s1 ∷ reg_csd_s0 ∷ reg_ocr
    ∷ rsp_r4 ∷ rsp_r7 ∷ ec32_flush_cache ∷ ec33_cache_ctrl ∷ ec34_power_off_notification
    ∷ ec161_hpi_mgmt ∷ ec163_bkops_en ∷ ec175_erase_group_def ∷ ec179_partition_config
    ∷ ec183_bus_width ∷ ec185_hs_timing ∷ ec196_device_type ∷ ec197_driver_strength
    ∷ ec308_cmdq_support ∷ reg_scr ∷ reg_ssr ∷ reg_switch_func ∷ arg_cmd5_sleep_aware
    ∷ arg_cmd6_switch ∷ arg_cmd6_switch_func ∷ arg_cmd8_send_if_cond ∷ arg_cmd23_set_block_count
    ∷ arg_acmd6_sd_set_bus_width ∷ arg_acmd41_sd_send_op ∷ arg_cmd52_io_rw_direct ∷ []

sdhi_settled : every (is_settled shares) sdhi_registers ≡ true
unfolding shares
sdhi_settled = refl

sdhci_settled : every (is_settled shares) sdhci_registers ≡ true
unfolding shares
sdhci_settled = refl

card_settled : every (is_settled shares) card_registers ≡ true
unfolding shares
card_settled = refl

abbrev pub IsRegister : Layout → Type 0
IsRegister l = Member l sdhi_registers ⊎ (Member l sdhci_registers ⊎ Member l card_registers)

register-is_settled : (l : Layout) → IsRegister l → is_settled shares l ≡ true
register-is_settled l (inl m) = every-Member (is_settled shares) sdhi_registers l sdhi_settled m
register-is_settled l (inr (inl m)) =
    every-Member (is_settled shares) sdhci_registers l sdhci_settled m
register-is_settled l (inr (inr m)) =
    every-Member (is_settled shares) card_registers l card_settled m

-- In each register of the two controllers, and in each register, response and argument of the cards,
-- writing a field leaves what is read of any other field as it was, but for the pairs of fields that
-- are listed as parts or second names of one another (in Layouts/Shared.antt).
pub fields_independent :
    (l : Layout) (f g : Field) (v w : Word) (i : ℕ)
    → IsRegister l
    → Member f l
    → Member g l
    → shares f g ≡ false
    → read_field g (write_field f v w) i ≡ read_field g w i
fields_independent l f g v w i r a b p =
    read_field-write_field f g v w
      (ground (arith, pair-is_settled shares l f g (register-is_settled l r) a b, p)) i

-- The field `com_crc_error` of a card's status also has the bit of `lock_unlock_failed`, so that it
-- is never zero where unlocking the card has failed.
pub com_crc_error_lem :
    (w : Word)
    → read_field (device_status ! "lock_unlock_failed") w 0 ≡ true
    → read_field (device_status ! "com_crc_error") w 1 ≡ true
unfolding read_field
com_crc_error_lem w e = e
