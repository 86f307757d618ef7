-- ===== src/Sdhci/Fields/Control.antt =====
-- server/src/drv_sdhci.h: the registers that control host, clock and interrupts.
use emmc_driver.Base.{[], ◌∷◌}
use emmc_driver.Reg.{Layout, bits}

abbrev pub reg_host_ctrl : Layout
reg_host_ctrl =
    bits 24 31 "wakeup"
    ∷ bits 16 23 "gapctrl"
    ∷ bits 13 15 "voltage_sel_vdd2"
    ∷ bits 12 12 "bus_power_vdd2"
    ∷ bits 9 11 "voltage_sel"
    ∷ bits 8 8 "bus_power"
    ∷ bits 7 7 "cdtest_en"
    ∷ bits 6 6 "cdtest_ins"
    ∷ bits 5 5 "bbit8"
    ∷ bits 3 4 "dmamod"
    ∷ bits 2 2 "hispd"
    ∷ bits 1 1 "bbit4"
    ∷ bits 0 0 "lctl"
    ∷ []

abbrev pub reg_sys_ctrl : Layout
reg_sys_ctrl =
    bits 28 28 "rstt"
    ∷ bits 27 27 "inita"
    ∷ bits 26 26 "rstd"
    ∷ bits 25 25 "rstc"
    ∷ bits 24 24 "rsta"
    ∷ bits 23 23 "ipp_rst_n"
    ∷ bits 16 19 "dtocv"
    ∷ bits 8 15 "sdclkfs"
    ∷ bits 4 7 "dvs"
    ∷ bits 8 15 "clk_freq8"
    ∷ bits 6 7 "clk_freq_ms2"
    ∷ bits 5 5 "clk_gensel"
    ∷ bits 3 3 "pllen"
    ∷ bits 2 2 "sdcen"
    ∷ bits 1 1 "icst"
    ∷ bits 0 0 "icen"
    ∷ []

abbrev pub reg_int_status : Layout
reg_int_status =
    bits 28 28 "dmae"
    ∷ bits 26 26 "tne"
    ∷ bits 25 25 "admae"
    ∷ bits 24 24 "ac12e"
    ∷ bits 23 23 "lime"
    ∷ bits 22 22 "debe"
    ∷ bits 21 21 "dce"
    ∷ bits 20 20 "dtoe"
    ∷ bits 19 19 "cie"
    ∷ bits 18 18 "cebe"
    ∷ bits 17 17 "cce"
    ∷ bits 16 16 "ctoe"
    ∷ bits 15 15 "err"
    ∷ bits 14 14 "cqi"
    ∷ bits 13 13 "tp"
    ∷ bits 12 12 "rte"
    ∷ bits 8 8 "cint"
    ∷ bits 7 7 "crm"
    ∷ bits 6 6 "cins"
    ∷ bits 5 5 "brr"
    ∷ bits 4 4 "bwr"
    ∷ bits 3 3 "dint"
    ∷ bits 2 2 "bge"
    ∷ bits 1 1 "tc"
    ∷ bits 0 0 "cc"
    ∷ []
