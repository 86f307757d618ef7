-- ===== src/Session.antt =====
-- Device<Driver> of server/src/device-impl.h while a card is powered up: it sends one command after
-- the other and sets up the controller in between. The card and the controller are arbitrary: each
-- of their answers is a function of all that was done before.

pub mod Switch
pub mod Keep
pub mod Address
pub mod Ocr
pub mod Poll
pub mod Post
pub mod Frame
pub mod Order
use emmc_driver.Base.{
  ℕ, ◌+◌, ◌*◌, ◌^◌, Bool, true, false, List, ◌∷◌, Option, Outcome, done, throws, eio, einval,
  Method, ◌>>◌, ◌>>=◌, if◌then◌else◌,
}
use emmc_driver.Mmc.{test_bit, BusWidth, Timing, Voltage}
use emmc_driver.Cmd.{Cmd, init_arg, init_data, is_error, is_success}

-- The UHS modes that `_device_type_disable.sd`, the card and the controller have bits for.
pub record SdModes : Type 0 where
  pub sdr12 : Bool
  pub sdr25 : Bool
  pub sdr50 : Bool
  pub sdr104 : Bool
  pub ddr50 : Bool

-- What is done to the card and to the controller: a command is sent with its argument, and methods
-- of the driver are called.
pub data Action : Type 0 where
  sent : ℕ → ℕ → Action
  set_bus_width : BusWidth → Action
  set_clock_and_timing : ℕ → Timing → Bool → Action
  set_voltage : Voltage → Action
  delay : ℕ → Action
  reset_tuning enable_auto_tuning : Action

-- What is done before is a list of actions, the latest first. `exec` is Drv::cmd_exec(), which is
-- taken to come back; `sets_up` tells whether the method of the driver that was called last throws,
-- `tuning_finished` gives `*success` if tuning has finished, `buffer` is what the I/O buffer holds.
pub record Env : Type 0 where
  pub exec : List Action → Cmd → Cmd × Outcome (Unit {0})
  pub sets_up : List Action → Outcome (Unit {0})
  pub card_busy : List Action → Bool
  pub tuning_finished : List Action → Option Bool
  pub buffer : List Action → List ℕ
  pub buffer_phys : ℕ
  pub buffer_virt : ℕ

pub record Session : Type 0 where
  pub cmd : Cmd
  pub log : List Action
  pub rca : ℕ
  pub addr_mult : ℕ
  pub num_sectors : ℕ
  pub has_cmd23 : Bool
  pub disabled : SdModes

abbrev pub pure : {A : Type 0} → A → Method Session A
pure a s = (s, done a)

abbrev pub fail : {A : Type 0} → Outcome A → Method Session A
fail r s = (s, r)

abbrev pub act : Action → Method Session (Unit {0})
act a s = (record s { log = a ∷ s.log }, done tt)

-- A method of the driver that throws where a wait for the controller times out.
abbrev pub set_up : Env → Action → Method Session (Unit {0})
set_up env a s = (record s { log = a ∷ s.log }, env.sets_up (a ∷ s.log))

abbrev pub with_cmd : (Cmd → Cmd) → Method Session (Unit {0})
with_cmd f s = (record s { cmd = f s.cmd }, done tt)

-- what the session holds
abbrev pub get : {A : Type 0} → (Session → A) → Method Session A
get f s = (s, done (f s))

unfoldable pub cmd_exec : Env → Method Session (Unit {0})
cmd_exec env s =
    let (c, r) = env.exec s.log s.cmd in
    (record s { cmd = c; log = sent s.cmd.cmd s.cmd.arg ∷ s.log }, r)

-- `cmd->init_arg(cmd_val, arg_val); cmd_exec(cmd);`
unfoldable pub exec_arg : Env → ℕ → ℕ → Method Session (Unit {0})
exec_arg env cmd_val arg_val = do with_cmd (λ c. init_arg c cmd_val arg_val); cmd_exec env

unfoldable pub init_data_io : Env → ℕ → ℕ → ℕ → Method Session (Unit {0})
init_data_io env cmd_val arg_val len s =
    let (c, r) = init_data s.cmd cmd_val arg_val len env.buffer_phys env.buffer_virt in
    (record s { cmd = c }, r)

-- `cmd->init_data(...)` for the I/O buffer, and `cmd_exec(cmd);`
unfoldable pub exec_data : Env → ℕ → ℕ → ℕ → Method Session (Unit {0})
exec_data env cmd_val arg_val len = do init_data_io env cmd_val arg_val len; cmd_exec env

abbrev pub is_failed : Session → Bool
is_failed s = is_error s.cmd.status

-- Cmd::check_error()
unfoldable pub check_error : Method Session (Unit {0})
check_error s = if is_failed s then (s, throws eio) else (s, done tt)

-- a bit of Cmd::mmc_status()
unfoldable pub mmc_status : ℕ → Method Session Bool
mmc_status k s =
    if s.cmd.flags.has_r1_response then (s, done (test_bit s.cmd.resp0 k)) else (s, throws einval)

-- `_rca << 16`
abbrev pub rca_arg : Session → ℕ
rca_arg s = s.rca * 2 ^ 16
