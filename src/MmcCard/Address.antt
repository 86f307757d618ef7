-- ===== src/MmcCard/Address.antt =====
-- The address that power_up_mmc() of server/src/device-impl.h gives to the device.
use emmc_driver.Base.{arith, ℕ, zero, suc, ◌≡◌, refl, Bool, true}
use emmc_driver.Mmc.{Timing, cmd3_set_relative_addr, cmd9_send_csd, cmd13_send_status}
use emmc_driver.Cmd
use emmc_driver.Cmd.{Status, success, cmd_timeout, Cmd}
use emmc_driver.PowerUp.{DeviceType, HsTiming, Width}
use emmc_driver.Session.{Env, with_cmd, delay}
use emmc_driver.Session.Keep.{Keeps, bind-Keeps, then-Keeps, if-Keeps, pure-Keeps, get-Keeps}
use emmc_driver.Session.Address.{
  NoAddress, is_unaddressed, sent-Keeps, act-Keeps, rca-Keeps, exec_arg-Keeps, check_error-Keeps,
  address_rules,
}
use emmc_driver.Session.Switch.{
  mmc_set_bus_width, mmc_set_timing, check_timing, check_status, set_error,
}
use emmc_driver.SdCard.{Host, exec_init, set_addr_mult}
use emmc_driver.MmcCard.{
  op_cond_round, op_cond_loop, cid_round, cid_loop, select_mmc, identify_mmc, set_sectors,
  read_ext_csd, switch_byte, set_features,
}

set_error-Keeps : Keeps NoAddress set_error
set_error-Keeps = record { keep = λ s p. p }

set_addr_mult-Keeps : (b : Bool) → Keeps NoAddress (set_addr_mult b)
set_addr_mult-Keeps b = record { keep = λ s p. p }

set_sectors-Keeps : (n : ℕ) → Keeps NoAddress (set_sectors n)
set_sectors-Keeps n = record { keep = λ s p. p }

any : (c : ℕ) → is_unaddressed c 0 ≡ true
any c = ground arith

-- CMD0, CMD1, CMD2 and tuning commands carry the argument 0
pub init-Keeps : (env : Env) (c : ℕ) → Keeps NoAddress (exec_init env c)
unfolding exec_init Cmd.init
init-Keeps env c =
    sent-Keeps {m = with_cmd (λ x. Cmd.init x c)} env (record { ready = λ s p. (p, any c) })

op_cond_round-Keeps : (env : Env) (a : ℕ) → Keeps NoAddress (op_cond_round env a)
unfolding op_cond_round
op_cond_round-Keeps env a = then-Keeps (exec_arg-Keeps env _ a refl) (search address_rules depth 10)

op_cond_loop-Keeps : (n : ℕ) (env : Env) (a : ℕ) → Keeps NoAddress (op_cond_loop n env a)
unfolding op_cond_loop
op_cond_loop-Keeps zero env a = pure-Keeps tt
op_cond_loop-Keeps (suc n) env a = bind-Keeps (op_cond_round-Keeps env a) (λ ready.
    if-Keeps ready (pure-Keeps tt)
      (then-Keeps (act-Keeps (delay 5) refl) (op_cond_loop-Keeps n env a)))

cid_loop-Keeps : (n : ℕ) (env : Env) → Keeps NoAddress (cid_loop n env)
unfolding cid_loop cid_round
cid_loop-Keeps zero env = pure-Keeps tt
cid_loop-Keeps (suc n) env =
    bind-Keeps (then-Keeps (init-Keeps env _) (get-Keeps _))
      (λ ok. if-Keeps ok (pure-Keeps tt) (cid_loop-Keeps n env))

select_mmc-Keeps : (env : Env) → Keeps NoAddress (select_mmc env 0)
unfolding select_mmc
select_mmc-Keeps env = then-Keeps (exec_arg-Keeps env cmd3_set_relative_addr 0 refl) (
    then-Keeps check_error-Keeps
      (then-Keeps (exec_arg-Keeps env cmd9_send_csd 0 refl) (search address_rules depth 20)))

pub identify_mmc-Keeps :
    (env : Env) (host : Host) (ocr : ℕ) → Keeps NoAddress (identify_mmc env host ocr)
unfolding identify_mmc
identify_mmc-Keeps env host ocr =
    search
      (
        address_rules, init-Keeps, op_cond_loop-Keeps, set_addr_mult-Keeps, cid_loop-Keeps,
        rca-Keeps, select_mmc-Keeps,
      )
      depth 24

pub read_ext_csd-Keeps : (env : Env) (off : DeviceType) → Keeps NoAddress (read_ext_csd env off)
unfolding read_ext_csd
read_ext_csd-Keeps env off = search (address_rules, set_sectors-Keeps) depth 14

switch_byte-Keeps : (env : Env) (i v : ℕ) → Keeps NoAddress (switch_byte env i v)
unfolding switch_byte
switch_byte-Keeps env i v = search address_rules depth 8

pub set_features-Keeps : (env : Env) → Keeps NoAddress (set_features env)
unfolding set_features
set_features-Keeps env = search (address_rules, switch_byte-Keeps) depth 20

pub width-Keeps : (env : Env) (w : Width) (b : Bool) → Keeps NoAddress (mmc_set_bus_width env w b)
unfolding mmc_set_bus_width
width-Keeps env w b = search address_rules depth 14

check_timing-Keeps : (env : Env) (t : HsTiming) → Keeps NoAddress (check_timing env t)
unfolding check_timing
check_timing-Keeps env t = search (address_rules, set_error-Keeps) depth 14

check_status-Keeps : (env : Env) (t : HsTiming) → Keeps NoAddress (check_status env t 0)
unfolding check_status
check_status-Keeps env t =
    then-Keeps (exec_arg-Keeps env cmd13_send_status 0 refl)
      (search (address_rules, set_error-Keeps, check_timing-Keeps) depth 14)

pub timing-Keeps :
    (env : Env) (t : HsTiming) (m : Timing) (f : ℕ) (b : Bool)
    → Keeps NoAddress (mmc_set_timing env t m f b)
unfolding mmc_set_timing
timing-Keeps env t m f b =
    search (address_rules, set_error-Keeps, rca-Keeps, check_status-Keeps) depth 16
