-- ===== src/Sdhi/Fields.antt =====
-- The registers of the SDHI controller in server/src/drv_sdhi.h; here those of commands and their
-- responses.
pub mod Card
pub mod Dma
use emmc_driver.Base.{[], ◌∷◌}
use emmc_driver.Reg.{Layout, bits}

abbrev pub reg_sd_cmd : Layout
reg_sd_cmd =
    bits 15 15 "md7"
    ∷ bits 14 14 "md6"
    ∷ bits 13 13 "md5"
    ∷ bits 12 12 "md4"
    ∷ bits 11 11 "md3"
    ∷ bits 8 10 "mode"
    ∷ bits 7 7 "c1"
    ∷ bits 6 6 "c0"
    ∷ bits 0 5 "cf"
    ∷ []

abbrev pub reg_sd_portsel : Layout
reg_sd_portsel = bits 9 9 "np1" ∷ bits 8 8 "np0" ∷ []

abbrev pub reg_sd_arg : Layout
reg_sd_arg =
    bits 31 31 "cf39"
    ∷ bits 30 30 "cf38"
    ∷ bits 29 29 "cf37"
    ∷ bits 28 28 "cf36"
    ∷ bits 27 27 "cf35"
    ∷ bits 26 26 "cf34"
    ∷ bits 25 25 "cf33"
    ∷ bits 24 24 "cf32"
    ∷ bits 23 23 "cf31"
    ∷ bits 22 22 "cf30"
    ∷ bits 21 21 "cf29"
    ∷ bits 20 20 "cf28"
    ∷ bits 19 19 "cf27"
    ∷ bits 18 18 "cf26"
    ∷ bits 17 17 "cf25"
    ∷ bits 16 16 "cf24"
    ∷ bits 15 15 "cf23"
    ∷ bits 14 14 "cf22"
    ∷ bits 13 13 "cf21"
    ∷ bits 12 12 "cf20"
    ∷ bits 11 11 "cf19"
    ∷ bits 10 10 "cf18"
    ∷ bits 9 9 "cf17"
    ∷ bits 8 8 "cf16"
    ∷ bits 7 7 "cf15"
    ∷ bits 6 6 "cf14"
    ∷ bits 5 5 "cf13"
    ∷ bits 4 4 "cf12"
    ∷ bits 3 3 "cf11"
    ∷ bits 2 2 "cf10"
    ∷ bits 1 1 "cf9"
    ∷ bits 0 0 "cf8"
    ∷ bits 0 31 "cf8_cf39"
    ∷ []

abbrev pub reg_sd_stop : Layout
reg_sd_stop = bits 17 17 "hpimode" ∷ bits 16 16 "hpicmd" ∷ bits 8 8 "sec" ∷ bits 0 0 "stp" ∷ []

abbrev pub reg_sd_seccnt : Layout
reg_sd_seccnt = bits 0 31 "cnt" ∷ []

abbrev pub reg_sd_rsp10 : Layout
reg_sd_rsp10 = bits 0 31 "r8_r39" ∷ []

abbrev pub reg_sd_rsp1 : Layout
reg_sd_rsp1 = bits 0 15 "r24_r39" ∷ []

abbrev pub reg_sd_rsp32 : Layout
reg_sd_rsp32 = bits 0 31 "r40_r71" ∷ []

abbrev pub reg_sd_rsp3 : Layout
reg_sd_rsp3 = bits 0 15 "r56_r71" ∷ []

abbrev pub reg_sd_rsp54 : Layout
reg_sd_rsp54 = bits 0 31 "r72_r103" ∷ []

abbrev pub reg_sd_rsp5 : Layout
reg_sd_rsp5 = bits 0 15 "r88_r103" ∷ []

abbrev pub reg_sd_rsp76 : Layout
reg_sd_rsp76 = bits 0 23 "r104_r127" ∷ []

abbrev pub reg_sd_rsp7 : Layout
reg_sd_rsp7 = bits 0 7 "r120_r127" ∷ []
