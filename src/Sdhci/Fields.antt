-- ===== src/Sdhci/Fields.antt =====
-- The registers of the SDHCI controllers in server/src/drv_sdhci.h; here those of commands and of
-- the controller's state.
pub mod Control
pub mod Enable
pub mod Caps
pub mod Vendor
use emmc_driver.Base.{[], ◌∷◌}
use emmc_driver.Reg.{Layout, bits}

abbrev pub reg_blk_att : Layout
reg_blk_att = bits 16 31 "blkcnt" ∷ bits 0 12 "blksize" ∷ []

abbrev pub reg_blk_size : Layout
reg_blk_size = bits 16 31 "blkcnt" ∷ bits 12 14 "sdma_buf_bndry" ∷ bits 0 11 "blksize" ∷ []

abbrev pub reg_cmd_xfr_typ : Layout
reg_cmd_xfr_typ =
    bits 24 29 "cmdinx"
    ∷ bits 22 23 "cmdtyp"
    ∷ bits 21 21 "dpsel"
    ∷ bits 20 20 "cicen"
    ∷ bits 19 19 "cccen"
    ∷ bits 18 18 "subcmd"
    ∷ bits 16 17 "rsptyp"
    ∷ bits 8 8 "rspintdis"
    ∷ bits 7 7 "rspchk"
    ∷ bits 6 6 "r1r5"
    ∷ bits 5 5 "msbsel"
    ∷ bits 4 4 "dtdsel"
    ∷ bits 3 3 "ac23en"
    ∷ bits 2 2 "ac12en"
    ∷ bits 1 1 "bcen"
    ∷ bits 0 0 "dmaen"
    ∷ []

abbrev pub reg_pres_state : Layout
reg_pres_state =
    bits 31 31 "d7lsl"
    ∷ bits 30 30 "d6lsl"
    ∷ bits 29 29 "d5lsl"
    ∷ bits 28 28 "d4lsl"
    ∷ bits 27 27 "d3lsl"
    ∷ bits 26 26 "d2lsl"
    ∷ bits 25 25 "d1lsl"
    ∷ bits 24 24 "d0lsl"
    ∷ bits 24 31 "dlsl"
    ∷ bits 28 28 "scs"
    ∷ bits 25 25 "hrvs"
    ∷ bits 24 24 "clsl"
    ∷ bits 20 23 "datlsl"
    ∷ bits 20 20 "dat0lsl"
    ∷ bits 19 19 "wpspl"
    ∷ bits 18 18 "cdpl"
    ∷ bits 16 16 "cinst"
    ∷ bits 15 15 "tscd"
    ∷ bits 12 12 "rtr"
    ∷ bits 11 11 "bren"
    ∷ bits 10 10 "bwen"
    ∷ bits 9 9 "rta"
    ∷ bits 8 8 "wta"
    ∷ bits 7 7 "sdoff"
    ∷ bits 6 6 "peroff"
    ∷ bits 5 5 "hckoff"
    ∷ bits 4 4 "ipgoff"
    ∷ bits 3 3 "sdstb"
    ∷ bits 2 2 "dla"
    ∷ bits 1 1 "cdihb"
    ∷ bits 0 0 "cihb"
    ∷ []

abbrev pub reg_prot_ctrl : Layout
reg_prot_ctrl =
    bits 30 30 "non_exact_b_lk_rd"
    ∷ bits 27 29 "burst_len_en"
    ∷ bits 26 26 "wecrm"
    ∷ bits 25 25 "wecins"
    ∷ bits 24 24 "wecint"
    ∷ bits 20 20 "rd_done_no_8clk"
    ∷ bits 19 19 "iabg"
    ∷ bits 18 18 "rwctl"
    ∷ bits 17 17 "creq"
    ∷ bits 16 16 "sabgreq"
    ∷ bits 8 9 "dmasel"
    ∷ bits 7 7 "cdss"
    ∷ bits 6 6 "cdtl"
    ∷ bits 4 5 "emode"
    ∷ bits 3 3 "d3cd"
    ∷ bits 1 2 "dtw"
    ∷ bits 0 0 "lctl"
    ∷ []
