-- ===== src/Mmc/Fields/Csd.antt =====
-- server/src/mmc.h: the three forms of the register CSD.
use emmc_driver.Base.{[], ◌∷◌}
use emmc_driver.Reg.{Layout, bits, raw}

abbrev pub reg_csd_s3 : Layout
reg_csd_s3 =
    bits 30 31 "csd_structure"
    ∷ bits 26 29 "spec_vers"
    ∷ bits 16 23 "taac"
    ∷ bits 8 15 "nsac"
    ∷ bits 3 6 "tran_speed_mult"
    ∷ bits 0 2 "tran_speed_unit"
    ∷ raw 1 20 31 "ccc"
    ∷ raw 1 16 19 "read_bl_len"
    ∷ raw 1 15 15 "read_bl_partial"
    ∷ raw 1 14 14 "write_blk_misalign"
    ∷ raw 1 13 13 "read_blk_misalign"
    ∷ raw 1 12 12 "dsr_imp"
    ∷ raw 1 0 9 "c_size_hi"
    ∷ raw 2 30 31 "c_size_lo"
    ∷ raw 2 27 29 "vdd_r_curr_min"
    ∷ raw 2 24 26 "vdd_r_curr_max"
    ∷ raw 2 21 23 "vdd_w_curr_min"
    ∷ raw 2 18 20 "vdd_w_curr_max"
    ∷ raw 2 15 17 "c_size_mult"
    ∷ raw 2 10 14 "erase_grp_size"
    ∷ raw 2 5 9 "erase_grp_mult"
    ∷ raw 2 0 4 "wp_grp_size"
    ∷ raw 3 31 31 "wp_grp_enable"
    ∷ raw 3 29 30 "default_ecc"
    ∷ raw 3 26 28 "r2w_factor"
    ∷ raw 3 22 25 "write_bl_len"
    ∷ raw 3 21 21 "write_bl_partial"
    ∷ raw 3 16 16 "content_prot_app"
    ∷ raw 3 15 15 "file_format_grp"
    ∷ raw 3 14 14 "copy"
    ∷ raw 3 13 13 "perm_write_protect"
    ∷ raw 3 12 12 "tmp_write_protect"
    ∷ raw 3 10 11 "file_format"
    ∷ raw 3 8 9 "ecc"
    ∷ raw 3 1 7 "crc"
    ∷ []

abbrev pub reg_csd_s1 : Layout
reg_csd_s1 =
    bits 30 31 "csd_structure"
    ∷ bits 16 23 "taac"
    ∷ bits 8 15 "nsac"
    ∷ bits 3 6 "tran_speed_mult"
    ∷ bits 0 2 "tran_speed_unit"
    ∷ raw 1 20 31 "ccc"
    ∷ raw 1 16 19 "read_bl_len"
    ∷ raw 1 15 15 "read_bl_partial"
    ∷ raw 1 14 14 "write_blk_misalign"
    ∷ raw 1 13 13 "read_blk_misalign"
    ∷ raw 1 12 12 "dsr_imp"
    ∷ raw 1 0 5 "c_size_hi"
    ∷ raw 2 16 31 "c_size_lo"
    ∷ raw 2 14 14 "erase_blk_en"
    ∷ raw 2 7 13 "sector_size"
    ∷ raw 2 0 6 "wp_grp_size_hi"
    ∷ raw 3 31 31 "wp_grp_enable"
    ∷ raw 3 26 28 "r2w_factor"
    ∷ raw 3 22 25 "write_bl_len"
    ∷ raw 3 21 21 "write_bl_partial"
    ∷ raw 3 15 15 "file_format_grp"
    ∷ raw 3 14 14 "copy"
    ∷ raw 3 13 13 "perm_write_protect"
    ∷ raw 3 12 12 "tmp_write_protect"
    ∷ raw 3 10 11 "file_format"
    ∷ raw 3 8 9 "ecc"
    ∷ raw 3 1 7 "crc"
    ∷ []

abbrev pub reg_csd_s0 : Layout
reg_csd_s0 =
    bits 30 31 "csd_structure"
    ∷ bits 16 23 "taac"
    ∷ bits 8 15 "nsac"
    ∷ bits 3 6 "tran_speed_mult"
    ∷ bits 0 2 "tran_speed_unit"
    ∷ raw 1 20 31 "ccc"
    ∷ raw 1 16 19 "read_bl_len"
    ∷ raw 1 15 15 "read_bl_partial"
    ∷ raw 1 14 14 "write_blk_misalign"
    ∷ raw 1 13 13 "read_blk_misalign"
    ∷ raw 1 12 12 "dsr_imp"
    ∷ raw 1 0 9 "c_size_hi"
    ∷ raw 2 30 31 "c_size_lo"
    ∷ raw 2 27 29 "vdd_r_curr_min"
    ∷ raw 2 24 26 "vdd_r_curr_max"
    ∷ raw 2 21 23 "vdd_w_curr_min"
    ∷ raw 2 18 20 "vdd_w_curr_max"
    ∷ raw 2 15 17 "c_size_mult"
    ∷ raw 2 14 14 "erase_blk_en"
    ∷ raw 2 7 13 "sector_size"
    ∷ raw 2 0 6 "wp_grp_size"
    ∷ raw 3 31 31 "wp_grp_enable"
    ∷ raw 3 26 28 "r2w_factor"
    ∷ raw 3 22 25 "write_bl_len"
    ∷ raw 3 21 21 "write_bl_partial"
    ∷ raw 3 15 15 "file_format_grp"
    ∷ raw 3 14 14 "copy"
    ∷ raw 3 13 13 "perm_write_protect"
    ∷ raw 3 12 12 "tmp_write_protect"
    ∷ raw 3 10 11 "file_format"
    ∷ raw 3 8 9 "ecc"
    ∷ raw 3 1 7 "crc"
    ∷ []
