-- ===== src/Mmc/Fields.antt =====
-- The registers of cards in server/src/mmc.h; here the status, the identification and the OCR.
pub mod Csd
pub mod Ext
pub mod SdCard
pub mod Args
use emmc_driver.Base.{[], ◌∷◌}
use emmc_driver.Reg.{Layout, bits, raw}

abbrev pub device_status : Layout
device_status =
    bits 31 31 "address_out_of_range"
    ∷ bits 30 30 "address_misalign"
    ∷ bits 29 29 "block_len_error"
    ∷ bits 28 28 "erase_seq_error"
    ∷ bits 27 27 "erase_param"
    ∷ bits 26 26 "wp_violation"
    ∷ bits 25 25 "device_is_locked"
    ∷ bits 24 24 "lock_unlock_failed"
    ∷ bits 23 24 "com_crc_error"
    ∷ bits 22 22 "illegal_command"
    ∷ bits 21 21 "device_ecc_failed"
    ∷ bits 20 20 "cc_error"
    ∷ bits 19 19 "error"
    ∷ bits 16 16 "cid_csd_overwrite"
    ∷ bits 15 15 "wp_erase_skip"
    ∷ bits 13 13 "erase_reset"
    ∷ bits 9 12 "current_state"
    ∷ bits 8 8 "ready_for_data"
    ∷ bits 7 7 "switch_error"
    ∷ bits 6 6 "exception_event"
    ∷ bits 5 5 "app_cmd"
    ∷ []

abbrev pub reg_cid_mmc : Layout
reg_cid_mmc =
    bits 24 31 "mid"
    ∷ bits 16 17 "cbx"
    ∷ bits 8 15 "oid"
    ∷ bits 0 7 "pnm0"
    ∷ raw 1 24 31 "pnm1"
    ∷ raw 1 16 23 "pnm2"
    ∷ raw 1 8 15 "pnm3"
    ∷ raw 1 0 7 "pnm4"
    ∷ raw 2 24 31 "pnm5"
    ∷ raw 2 16 23 "prv"
    ∷ raw 2 8 15 "psn0"
    ∷ raw 2 0 7 "psn1"
    ∷ raw 3 24 31 "psn2"
    ∷ raw 3 16 23 "psn3"
    ∷ raw 3 8 15 "mdt"
    ∷ raw 3 1 7 "crc"
    ∷ []

abbrev pub reg_cid_sd : Layout
reg_cid_sd =
    bits 24 31 "mid"
    ∷ bits 8 23 "oid"
    ∷ bits 0 7 "pnm0"
    ∷ raw 1 24 31 "pnm1"
    ∷ raw 1 16 23 "pnm2"
    ∷ raw 1 8 15 "pnm3"
    ∷ raw 1 0 7 "pnm4"
    ∷ raw 2 24 31 "prv"
    ∷ raw 2 16 23 "psn0"
    ∷ raw 2 8 15 "psn1"
    ∷ raw 2 0 7 "psn2"
    ∷ raw 3 24 31 "psn3"
    ∷ raw 3 8 19 "mdt"
    ∷ raw 3 1 7 "crc"
    ∷ []
