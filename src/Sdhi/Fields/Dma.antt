-- ===== src/Sdhi/Fields/Dma.antt =====
-- server/src/drv_sdhi.h: the registers of the host and of its DMA.
use emmc_driver.Base.{[], ◌∷◌}
use emmc_driver.Reg.{Layout, bits}

abbrev pub reg_sdio_mode : Layout
reg_sdio_mode = bits 9 9 "c52pub" ∷ bits 8 8 "ioabt" ∷ bits 2 2 "rwreq" ∷ bits 0 0 "iomod" ∷ []

abbrev pub reg_sdio_info1 : Layout
reg_sdio_info1 =
    bits 15 15 "exwt"
    ∷ bits 14 14 "expub52"
    ∷ bits 2 2 "res2"
    ∷ bits 1 1 "res1"
    ∷ bits 0 0 "ioirq"
    ∷ []

abbrev pub reg_sdio_info1_mask : Layout
reg_sdio_info1_mask =
    bits 15 15 "mexwt"
    ∷ bits 14 14 "mexpub52"
    ∷ bits 2 2 "res2"
    ∷ bits 1 1 "res1"
    ∷ bits 0 0 "iomsk"
    ∷ []

abbrev pub reg_cc_ext_mode : Layout
reg_cc_ext_mode = bits 12 12 "res12" ∷ bits 4 4 "res4" ∷ bits 1 1 "dmasdrw" ∷ []

abbrev pub reg_soft_rst : Layout
reg_soft_rst = bits 2 2 "res2" ∷ bits 1 1 "res1" ∷ bits 0 0 "sdrst" ∷ []

abbrev pub reg_version : Layout
reg_version = bits 0 15 "version" ∷ []

abbrev pub reg_host_mode : Layout
reg_host_mode = bits 8 8 "buswidth" ∷ bits 1 1 "endian" ∷ bits 0 0 "wmode" ∷ []

abbrev pub reg_sdif_mode : Layout
reg_sdif_mode = bits 8 8 "nochkcr" ∷ bits 0 0 "hs400" ∷ []

abbrev pub reg_dm_cm_dtran_mode : Layout
reg_dm_cm_dtran_mode = bits 16 17 "ch_num" ∷ bits 4 5 "bus_width" ∷ bits 0 0 "addr_mode" ∷ []

abbrev pub reg_dm_cm_dtran_ctrl : Layout
reg_dm_cm_dtran_ctrl = bits 0 0 "dm_start" ∷ []

abbrev pub reg_dm_cm_rst : Layout
reg_dm_cm_rst =
    bits 10 31 "res10_31" ∷ bits 8 9 "dtranrst" ∷ bits 1 7 "res1_7" ∷ bits 0 0 "seqrst" ∷ []

abbrev pub reg_dm_cm_info1 : Layout
reg_dm_cm_info1 =
    bits 20 20 "dtranend12"
    ∷ bits 17 17 "dtranend11"
    ∷ bits 16 16 "dtranend0"
    ∷ bits 8 8 "segsuspend"
    ∷ bits 0 0 "seqend"
    ∷ []

abbrev pub reg_dm_cm_info1_mask : Layout
reg_dm_cm_info1_mask =
    bits 21 31 "res21_31"
    ∷ bits 20 20 "dtranend12_mask"
    ∷ bits 19 19 "res19"
    ∷ bits 18 18 "res18"
    ∷ bits 17 17 "dtranend11_mask"
    ∷ bits 16 16 "dtranend0_mask"
    ∷ bits 9 15 "res9_15"
    ∷ bits 8 8 "suspend_mask"
    ∷ bits 1 7 "res1_7"
    ∷ bits 0 0 "seqend_mask"
    ∷ []

abbrev pub reg_dm_cm_info2 : Layout
reg_dm_cm_info2 = bits 17 17 "dtranerr1" ∷ bits 16 16 "dtranerr0" ∷ bits 0 0 "seqerr" ∷ []

abbrev pub reg_dm_cm_info2_mask : Layout
reg_dm_cm_info2_mask =
    bits 20 31 "res20_31"
    ∷ bits 18 19 "res18_19"
    ∷ bits 17 17 "dtranerr1_mask"
    ∷ bits 16 16 "dtranerr0_mask"
    ∷ bits 1 15 "res1_15"
    ∷ bits 0 0 "seqerr_mask"
    ∷ []

abbrev pub reg_dm_cm_seq_stat : Layout
reg_dm_cm_seq_stat = bits 0 1 "seqtbsts" ∷ []

abbrev pub reg_dm_dtran_addr : Layout
reg_dm_dtran_addr = bits 0 31 "daddr" ∷ []
