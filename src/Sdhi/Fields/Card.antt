-- ===== src/Sdhi/Fields/Card.antt =====
-- server/src/drv_sdhi.h: the registers for the state of the card, its clock and its options.
use emmc_driver.Base.{[], ◌∷◌}
use emmc_driver.Reg.{Layout, bits}

abbrev pub reg_sd_info : Layout
reg_sd_info =
    bits 31 31 "ila"
    ∷ bits 30 30 "cbsy"
    ∷ bits 29 29 "sclkdiven"
    ∷ bits 27 27 "res27"
    ∷ bits 25 25 "bwe"
    ∷ bits 24 24 "bre"
    ∷ bits 23 23 "dat0"
    ∷ bits 22 22 "err6"
    ∷ bits 21 21 "err5"
    ∷ bits 20 20 "err4"
    ∷ bits 19 19 "err3"
    ∷ bits 18 18 "err2"
    ∷ bits 17 17 "err1"
    ∷ bits 16 16 "err0"
    ∷ bits 10 10 "info10"
    ∷ bits 9 9 "info9"
    ∷ bits 8 8 "info8"
    ∷ bits 7 7 "info7"
    ∷ bits 5 5 "info5"
    ∷ bits 4 4 "info4"
    ∷ bits 3 3 "info3"
    ∷ bits 2 2 "info2"
    ∷ bits 0 0 "info0"
    ∷ []

abbrev pub reg_sd_info_mask : Layout
reg_sd_info_mask =
    bits 31 31 "imask"
    ∷ bits 26 30 "res26_30"
    ∷ bits 25 25 "bmask1"
    ∷ bits 24 24 "bmask0"
    ∷ bits 23 23 "res23"
    ∷ bits 22 22 "emask6"
    ∷ bits 21 21 "emask5"
    ∷ bits 20 20 "emask4"
    ∷ bits 19 19 "emask3"
    ∷ bits 18 18 "emask2"
    ∷ bits 17 17 "emask1"
    ∷ bits 16 16 "emask0"
    ∷ bits 10 15 "res10_15"
    ∷ bits 9 9 "imask9"
    ∷ bits 8 8 "imask8"
    ∷ bits 5 5 "res5_7"
    ∷ bits 4 4 "imask4"
    ∷ bits 3 3 "imask3"
    ∷ bits 2 2 "imask2"
    ∷ bits 1 1 "res1"
    ∷ bits 0 0 "imask0"
    ∷ []

abbrev pub reg_sd_clk_ctrl : Layout
reg_sd_clk_ctrl =
    bits 9 9 "sdclk_offen"
    ∷ bits 8 8 "sclken"
    ∷ bits 7 7 "div7"
    ∷ bits 6 6 "div6"
    ∷ bits 5 5 "div5"
    ∷ bits 4 4 "div4"
    ∷ bits 3 3 "div3"
    ∷ bits 2 2 "div2"
    ∷ bits 1 1 "div1"
    ∷ bits 0 0 "div0"
    ∷ bits 0 7 "div"
    ∷ []

abbrev pub reg_sd_size : Layout
reg_sd_size = bits 0 9 "len" ∷ []

abbrev pub reg_sd_option : Layout
reg_sd_option =
    bits 15 15 "width"
    ∷ bits 14 14 "res14"
    ∷ bits 13 13 "width8"
    ∷ bits 9 9 "extop"
    ∷ bits 8 8 "toutmask"
    ∷ bits 4 7 "top"
    ∷ bits 0 3 "ctop"
    ∷ []

abbrev pub reg_sd_err_sts1 : Layout
reg_sd_err_sts1 =
    bits 11 11 "e11"
    ∷ bits 10 10 "e10"
    ∷ bits 9 9 "e9"
    ∷ bits 8 8 "e8"
    ∷ bits 7 7 "e7"
    ∷ bits 6 6 "e6"
    ∷ bits 5 5 "e5"
    ∷ bits 4 4 "e4"
    ∷ bits 3 3 "e3"
    ∷ bits 2 2 "e2"
    ∷ bits 1 1 "e1"
    ∷ bits 0 0 "e0"
    ∷ []

abbrev pub reg_sd_err_sts2 : Layout
reg_sd_err_sts2 =
    bits 6 6 "e6"
    ∷ bits 5 5 "e5"
    ∷ bits 4 4 "e4"
    ∷ bits 3 3 "e3"
    ∷ bits 2 2 "e2"
    ∷ bits 1 1 "e1"
    ∷ bits 0 0 "e0"
    ∷ []
