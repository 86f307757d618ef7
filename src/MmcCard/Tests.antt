-- ===== src/MmcCard/Tests.antt =====
-- The theorems on powering up an eMMC device at a device with HS200 and HS400.
use emmc_driver.Base.{
  ◌*◌, ◌^◌, ℕ, zero, suc, true, false, List, [], ◌∷◌, some, done, ◌==◌, if◌then◌else◌,
}
use emmc_driver.Mmc.{cmd55_app_cmd, cmd1_send_op_cond, cmd9_send_csd}
use emmc_driver.Cmd.{blank, success, cmd_timeout, Status}
use emmc_driver.PowerUp.{fallback}
use emmc_driver.Session.{SdModes, Env, Session}
use emmc_driver.Session.Post.{Post}
use emmc_driver.SdCard.{Host}
use emmc_driver.MmcCard.{device_type}
use emmc_driver.MmcCard.Select.{find_card, search_mmc_mode, mmc_rounds}
use emmc_driver.MmcCard.Search.{Selects, search_mmc_mode-Selects}
use emmc_driver.MmcCard.Zero.{WithoutAddress, find_card-WithoutAddress}

abbrev no_modes : SdModes
no_modes = record { sdr12 = false; sdr25 = false; sdr50 = false; sdr104 = false; ddr50 = false }

abbrev controller : Host
controller = record {
  ocr = 0x00ff8000;
  supp_uhs = false;
  supp = no_modes;
  xpc_180 = false;
  xpc_330 = false;
  power_144w = false;
  power_216w = false;
  power_288w = false;
  power_180w = false;
  needs_tuning_sdr50 = false;
}

abbrev fresh : Session
fresh = record {
  cmd = blank;
  log = [];
  rca = 1;
  addr_mult = 0;
  num_sectors = 0;
  has_cmd23 = false;
  disabled = no_modes;
}

-- CMD55 is not known; the device is ready, has sector addresses, and version 4 of the CSD.
abbrev state : ℕ → Status
state c = if c == cmd55_app_cmd then cmd_timeout else success

abbrev answer : ℕ → ℕ
answer c =
    if c == cmd1_send_op_cond then 0xc0ff8000 else if c == cmd9_send_csd then 4 * 2 ^ 26 else 0x900

-- EXT_CSD of 512 bytes: timing in byte 185, device types in byte 196
abbrev ext_csd : List ℕ
ext_csd = zeros 185 (0x02 ∷ zeros 10 (0x57 ∷ zeros 315 []))
  where
    zeros : ℕ → List ℕ → List ℕ
    zeros zero l = l
    zeros (suc n) l = 0 ∷ zeros n l

abbrev mmc_slot : Env
mmc_slot = record {
  exec = λ l c. (
    record c {
      status = state c.cmd;
      resp0 = answer c.cmd;
      flags = record (c.flags) { has_r1_response = true };
    },
    done tt,
  );
  card_busy = λ l. false;
  sets_up = λ l. done tt;
  tuning_finished = λ l. some true;
  buffer = λ l. ext_csd;
  buffer_phys = 0x10000;
  buffer_virt = 0x20000;
}

search_mmc_mode-Selects_example :
    Post
      (Selects (device_type 0x57))
      (search_mmc_mode mmc_rounds mmc_slot false (device_type 0x57) fresh)
search_mmc_mode-Selects_example = search_mmc_mode-Selects mmc_slot false (device_type 0x57) fresh

find_card-WithoutAddress_example :
    Post (WithoutAddress []) (find_card mmc_slot controller fallback fresh)
find_card-WithoutAddress_example = find_card-WithoutAddress mmc_slot controller fallback fresh
