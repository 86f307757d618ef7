-- ===== src/Layouts/Tests.antt =====
-- The theorem on registers at the command register of the SDHI controller.
use emmc_driver.Base.{◌≡◌, refl, inl, inr}
use emmc_driver.Reg.{Word, word, read_field, write_field}
use emmc_driver.Reg.Ops.{◌!◌}
use emmc_driver.Sdhi.Fields.{reg_sd_cmd}
use emmc_driver.Layouts.{fields_independent}
use emmc_driver.Layouts.Shared.{shares}

-- CMD18 with a response
abbrev read_multiple : Word
read_multiple = word 0x0412

fields_independent_example :
    read_field (reg_sd_cmd ! "mode") (write_field (reg_sd_cmd ! "md6") (word 1) read_multiple) 2
    ≡ read_field (reg_sd_cmd ! "mode") read_multiple 2
unfolding shares
fields_independent_example =
    fields_independent reg_sd_cmd (reg_sd_cmd ! "md6") (reg_sd_cmd ! "mode") (word 1) read_multiple
      2 (inl (inl refl)) (inr (inl refl)) (inr (inr (inr (inr (inr (inl refl)))))) refl
