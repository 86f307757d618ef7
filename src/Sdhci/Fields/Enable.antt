-- ===== src/Sdhci/Fields/Enable.antt =====
-- server/src/drv_sdhci.h: the registers that enable interrupts, and Auto CMD12.
use emmc_driver.Base.{[], ◌∷◌}
use emmc_driver.Reg.{Layout, bits}

abbrev pub reg_int_status_en : Layout
reg_int_status_en =
    bits 28 28 "dmaesen"
    ∷ bits 26 26 "tnesen"
    ∷ bits 25 25 "admaesen"
    ∷ bits 24 24 "ac12sene"
    ∷ bits 23 23 "limesen"
    ∷ bits 22 22 "debesen"
    ∷ bits 21 21 "dcesen"
    ∷ bits 20 20 "dtoesen"
    ∷ bits 19 19 "ciesen"
    ∷ bits 18 18 "cebesen"
    ∷ bits 17 17 "ccesen"
    ∷ bits 16 16 "ctoesen"
    ∷ bits 14 14 "cqisen"
    ∷ bits 13 13 "tpsen"
    ∷ bits 12 12 "rtesen"
    ∷ bits 8 8 "cintsen"
    ∷ bits 7 7 "crmsen"
    ∷ bits 6 6 "cinssen"
    ∷ bits 5 5 "brrsen"
    ∷ bits 4 4 "bwrsen"
    ∷ bits 3 3 "dintsen"
    ∷ bits 2 2 "bgesen"
    ∷ bits 1 1 "tcsen"
    ∷ bits 0 0 "ccsen"
    ∷ []

abbrev pub reg_int_signal_en : Layout
reg_int_signal_en =
    bits 28 28 "dmaeien"
    ∷ bits 26 26 "tneien"
    ∷ bits 25 25 "admaeien"
    ∷ bits 24 24 "ac12iene"
    ∷ bits 23 23 "limeien"
    ∷ bits 22 22 "debeien"
    ∷ bits 21 21 "dceien"
    ∷ bits 20 20 "dtoeien"
    ∷ bits 19 19 "cieien"
    ∷ bits 18 18 "cebeien"
    ∷ bits 17 17 "cceien"
    ∷ bits 16 16 "ctoeien"
    ∷ bits 14 14 "cqiien"
    ∷ bits 13 13 "tpien"
    ∷ bits 12 12 "rteien"
    ∷ bits 8 8 "cintien"
    ∷ bits 7 7 "crmien"
    ∷ bits 6 6 "cinsien"
    ∷ bits 5 5 "brrien"
    ∷ bits 4 4 "bwrien"
    ∷ bits 3 3 "dintien"
    ∷ bits 2 2 "bgeien"
    ∷ bits 1 1 "tcien"
    ∷ bits 0 0 "ccien"
    ∷ []

abbrev pub reg_autocmd12_err_status : Layout
reg_autocmd12_err_status =
    bits 23 23 "smp_clk_sel"
    ∷ bits 22 22 "execute_tuning"
    ∷ bits 7 7 "cnibac12e"
    ∷ bits 4 4 "ac12ie"
    ∷ bits 3 3 "ac12ce"
    ∷ bits 2 2 "ac12ebe"
    ∷ bits 1 1 "ac12toe"
    ∷ bits 0 0 "ac12ne"
    ∷ []

abbrev pub reg_host_ctrl2 : Layout
reg_host_ctrl2 =
    bits 31 31 "presvlen"
    ∷ bits 30 30 "asyninten"
    ∷ bits 29 29 "bit64"
    ∷ bits 28 28 "hostv4"
    ∷ bits 27 27 "cmd23en"
    ∷ bits 26 26 "adma2len26"
    ∷ bits 24 24 "uhs2en"
    ∷ bits 23 23 "tuned"
    ∷ bits 22 22 "tuneon"
    ∷ bits 19 19 "v18"
    ∷ bits 16 18 "uhsmode"
    ∷ bits 7 7 "notc12_err"
    ∷ bits 4 4 "acbad_err"
    ∷ bits 3 3 "acend_err"
    ∷ bits 2 2 "accrc_err"
    ∷ bits 1 1 "acto_err"
    ∷ bits 0 0 "acnox_err"
    ∷ []
