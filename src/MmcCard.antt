-- ===== src/MmcCard.antt =====
-- Device::power_up_mmc() of server/src/device-impl.h up to the search for a mode: operating
-- conditions, identification, EXT_CSD, and the settings of the device.
pub mod Select
pub mod Search
pub mod Address
pub mod Zero
mod Tests
use emmc_driver.Base.{
  ℕ, zero, suc, ◌+◌, ◌*◌, ◌/◌, ◌%◌, ◌^◌, Bool, true, false, not, ◌&&◌, List, Option, Outcome, done,
  throws, eio, einval, Method, ◌>>◌, ◌>>=◌, ◌==◌, ltb, if◌then◌else◌, get_or,
}
use emmc_driver.Mmc.{
  test_bit, cmd0_go_idle_state, cmd1_send_op_cond, cmd2_all_send_cid, cmd3_set_relative_addr,
  cmd7_select_card, cmd8_send_ext_csd, cmd9_send_csd, cmd16_set_blocklen,
}
use emmc_driver.Mmc.Sd.{field}
use emmc_driver.Cmd.{is_success}
use emmc_driver.PowerUp.{DeviceType, disable}
use emmc_driver.Session.{
  Env, Session, delay, pure, fail, act, get, exec_arg, exec_data, check_error, mmc_status, rca_arg,
}
use emmc_driver.Session.Switch.{adapt_ocr, exec_mmc_switch}
use emmc_driver.SdCard.{Host, exec_init, resp_bit, set_addr_mult}

-- Whether the device has left the busy state, with an OCR that is not one of the values that stand
-- for an answer of a busy device.
abbrev pub is_powered : Session → Bool
is_powered s =
    not (s.cmd.resp0 == 0x00ff8080) && (not (s.cmd.resp0 == 0x40ff8080) && test_bit s.cmd.resp0 31)

unfoldable pub op_cond_round : Env → ℕ → Method Session Bool
op_cond_round env arg = do exec_arg env cmd1_send_op_cond arg; check_error; get is_powered

-- the loop over CMD1, for as many rounds as are left
unfoldable pub op_cond_loop : ℕ → Env → ℕ → Method Session (Unit {0})
op_cond_loop zero env arg = pure tt
op_cond_loop (suc n) env arg =
    let rest = act (delay 5) >> op_cond_loop n env arg in
    op_cond_round env arg >>= λ ready. if ready then pure tt else rest

unfoldable pub cid_round : Env → Method Session Bool
cid_round env = do exec_init env cmd2_all_send_cid; get (λ s. is_success s.cmd.status)

-- the loop over CMD2, for as many rounds as are left
unfoldable pub cid_loop : ℕ → Env → Method Session (Unit {0})
cid_loop zero env = pure tt
cid_loop (suc n) env =
    let rest = cid_loop n env in cid_round env >>= λ ok. if ok then pure tt else rest

-- CMD3, CMD9 and CMD7 with the argument `rca`; `spec_vers` of the CSD is in bits 26 to 29 of its
-- first word, `device_is_locked` is bit 25 of the status.
unfoldable pub select_mmc : Env → ℕ → Method Session (Unit {0})
select_mmc env rca = do
  exec_arg env cmd3_set_relative_addr rca
  check_error
  exec_arg env cmd9_send_csd rca
  check_error
  old ← get (λ s. ltb (field s.cmd.resp0 26 4) 4)
  if old then fail (throws einval) else pure tt
  exec_arg env cmd7_select_card rca
  check_error
  locked ← mmc_status 25
  if locked then fail (throws eio) else pure tt

-- from CMD0 to CMD7
unfoldable pub identify_mmc : Env → Host → ℕ → Method Session (Unit {0})
identify_mmc env host ocr = do
  exec_init env cmd0_go_idle_state
  check_error
  op_cond_loop 100 env (adapt_ocr ocr host.ocr)
  ready ← resp_bit 31
  if ready then pure tt else fail (throws eio)
  ccs ← resp_bit 30
  set_addr_mult ccs
  cid_loop 5 env
  check_error
  get rca_arg >>= select_mmc env

-- The bytes `i` to `i + 3` of the buffer as a number, the lowest byte first.
abbrev pub le_word : List ℕ → ℕ → ℕ
le_word bytes i =
    get_or bytes i 0
    + get_or bytes (i + 1) 0 * 2 ^ 8
    + get_or bytes (i + 2) 0 * 2 ^ 16
    + get_or bytes (i + 3) 0 * 2 ^ 24

-- Ec192_ext_csd_rev::mmc_rev()
unfoldable pub mmc_rev : ℕ → ℕ
mmc_rev raw =
    if ltb raw 5
    then raw + 400
    else if raw == 5
    then 441
    else if raw == 6
    then 451
    else if raw == 7
    then 500
    else if raw == 8
    then 510
    else 0

-- The bits of Ec196_device_type for 1.8 V or 3 V; disable_12() clears the others.
abbrev pub device_type : ℕ → DeviceType
device_type raw = record {
  hs400_ddr_18 = test_bit raw 6;
  hs200_sdr_18 = test_bit raw 4;
  hs52_ddr_18 = test_bit raw 2;
  hs52 = test_bit raw 1;
  hs26 = test_bit raw 0;
}

-- What is kept of EXT_CSD.
pub record MmcInfo : Type 0 where
  pub rev : ℕ
  pub num_sectors : ℕ
  pub size_user : ℕ
  pub size_boot12 : ℕ
  pub size_rpmb : ℕ
  pub restricted : DeviceType
  pub enh_strobe : Bool

unfoldable pub mmc_info : DeviceType → List ℕ → MmcInfo
mmc_info off ecsd = record {
  rev = mmc_rev (get_or ecsd 192 0);
  num_sectors = le_word ecsd 212;
  size_user = le_word ecsd 212 * 2 ^ 9;
  size_boot12 = get_or ecsd 226 0 * 2 ^ 17;
  size_rpmb = get_or ecsd 168 0 * 2 ^ 17;
  restricted = disable (device_type (get_or ecsd 196 0)) off;
  enh_strobe = not (get_or ecsd 184 0 == 0);
}

abbrev pub set_sectors : ℕ → Method Session (Unit {0})
set_sectors n s = (record s { num_sectors = n }, done tt)

unfoldable pub read_ext_csd : Env → DeviceType → Method Session MmcInfo
read_ext_csd env off = do
  exec_data env cmd8_send_ext_csd 0 512
  check_error
  info ← get (λ s. mmc_info off (env.buffer s.log))
  set_sectors info.num_sectors
  pure info

unfoldable pub switch_byte : Env → ℕ → ℕ → Method Session (Unit {0})
switch_byte env idx val = exec_mmc_switch env idx val true >> check_error

-- The settings that need no choice: ERASE_GROUP_DEF, the block length, POWER_OFF_NOTIFICATION,
-- HPI_MGMT, the cache where there is one, and BKOPS_EN. Given is whether there is a cache.
unfoldable pub set_features : Env → Method Session Bool
set_features env = do
  switch_byte env 175 1
  exec_arg env cmd16_set_blocklen 512
  check_error
  switch_byte env 34 1
  switch_byte env 161 0
  no_cache ← get (λ s. le_word (env.buffer s.log) 249 == 0)
  if no_cache then pure tt else switch_byte env 33 1
  switch_byte env 163 2
  pure (not no_cache)
