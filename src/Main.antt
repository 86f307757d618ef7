-- ===== src/Main.antt =====
-- server/src/main.cc: the command line and the clients that it adds; below, the clients that are
-- created at run time and the search for devices.
pub mod Create
pub mod Scan
pub mod Args
pub mod Asked
mod Tests
use Prim.Native.String.{String}
use text.Mathlib.Text.{◌==◌}
use emmc_driver.Base.{
  ℕ, ◌+◌, ◌*◌, ◌%◌, ◌^◌, Bool, true, false, not, List, [], ◌∷◌, ◌++◌, Option, none, some, Outcome,
  done, throws, ℤ, pos, negsuc, is_negative, is_between, nat_abs, if◌then◌else◌,
}
use emmc_driver.PowerUp.{DeviceType}
use emmc_driver.Session.{SdModes}

-- What the command line is parsed with: `parse_device_name()` of libblock-device, which gives a
-- name or an error, and whether there is a capability of a name.
pub record Env : Type 0 where
  pub parse_device_name : String → Outcome String
  pub has_cap : String → Bool

-- Client_opts
pub record ClientOpts : Type 0 where
  pub capname : Option String
  pub device : String
  pub ds_max : ℤ
  pub readonly : Bool
  pub dma_map_all : Bool

abbrev pub no_client : ClientOpts
no_client = record {
  capname = none;
  device = "";
  ds_max = pos 2;
  readonly = false;
  dma_map_all = true;
}

-- The arguments of `add_static_client()`.
pub record StaticClient : Type 0 where
  pub cap : String
  pub dev : String
  pub num_ds : ℤ
  pub readonly : Bool
  pub map_all : Bool

-- Device_type_disable, where `mmc` has the bits for 1.8 V: those for 1.2 V are always cleared.
pub record DeviceTypeDisable : Type 0 where
  pub mmc : DeviceType
  pub sd : SdModes

-- What main() and parse_args() set; `level` is the level of class Dbg.
pub record Settings : Type 0 where
  pub device_type_disable : DeviceTypeDisable
  pub max_seg : ℕ
  pub opts : ClientOpts
  pub debug_level : ℕ
  pub level : ℕ
  pub clients : List StaticClient

-- An option as getopt_long() finds it, with its `optarg`, or the value of atoi() where it is read
-- by that; `opt_other` is any other one.
pub data Opt : Type 0 where
  opt_verbose opt_quiet opt_readonly opt_dma_map_all opt_dma_map_per_req opt_other : Opt
  opt_disable_mode opt_client opt_device : String → Opt
  opt_max_seg opt_ds_max : ℤ → Opt

abbrev pub is_empty : String → Bool
is_empty String.[] = true
is_empty (String.◌∷◌ c s) = false

-- Client_opts::add_client() with its `capname`; `none` is `false`.
abbrev pub add_named : Env → ClientOpts → List StaticClient → String → Option (List StaticClient)
add_named env o cs cap =
    if is_empty o.device
    then none
    else if not (env.has_cap cap)
    then none
    else some (
        cs
        ++ record {
          cap = cap;
          dev = o.device;
          num_ds = o.ds_max;
          readonly = o.readonly;
          map_all = o.dma_map_all;
        }
          ∷ [])

abbrev pub add_client_of :
    Env → ClientOpts → List StaticClient → Option String → Option (List StaticClient)
add_client_of env o cs none = some cs
add_client_of env o cs (some cap) = add_named env o cs cap

unfoldable pub add_client : Env → ClientOpts → List StaticClient → Option (List StaticClient)
add_client env o cs = add_client_of env o cs o.capname

-- `OPT_DISABLE_MODE`: any other name only prints the usage.
unfoldable pub disable_named : String → DeviceTypeDisable → DeviceTypeDisable
disable_named s d =
    if s == "hs26"
    then record d { mmc = record (d.mmc) { hs26 = true } }
    else if s == "hs52"
    then record d { mmc = record (d.mmc) { hs52 = true } }
    else if s == "hs52_ddr"
    then record d { mmc = record (d.mmc) { hs52_ddr_18 = true } }
    else if s == "hs200"
    then record d { mmc = record (d.mmc) { hs200_sdr_18 = true } }
    else if s == "hs400"
    then record d { mmc = record (d.mmc) { hs400_ddr_18 = true } }
    else if s == "sdr12"
    then record d { sd = record (d.sd) { sdr12 = true } }
    else if s == "sdr25"
    then record d { sd = record (d.sd) { sdr25 = true } }
    else if s == "sdr50"
    then record d { sd = record (d.sd) { sdr50 = true } }
    else if s == "sdr104"
    then record d { sd = record (d.sd) { sdr104 = true } }
    else if s == "ddr50"
    then record d { sd = record (d.sd) { ddr50 = true } }
    else d

-- What an option leaves, with the value that parse_args() returns where it stops there.
abbrev pub Parsed : Type 0
Parsed = Settings × Option ℤ

abbrev pub set_max_seg : ℤ → Settings → Parsed
set_max_seg i s =
    if is_between 0 128 i then (record s { max_seg = nat_abs i }, none) else (s, some (negsuc 0))

abbrev pub next_client : String → Option (List StaticClient) → Settings → Parsed
next_client c none s = (s, some (pos 1))
next_client c (some cs) s =
    (record s { clients = cs; opts = record no_client { capname = some c } }, none)

abbrev pub set_device : Outcome String → Settings → Parsed
set_device (done name) s = (record s { opts = record (s.opts) { device = name } }, none)
set_device (throws e) s = (s, some (negsuc 0))

-- The cases of the `switch`.
unfoldable pub parse_opt : Env → Opt → Settings → Parsed
unfolding add_client disable_named
parse_opt env opt_verbose s = (record s { debug_level = (s.debug_level * 2 + 1) % 2 ^ 32 }, none)
parse_opt env opt_quiet s = (record s { debug_level = 0 }, none)
parse_opt env (opt_disable_mode m) s =
    (record s { device_type_disable = disable_named m s.device_type_disable }, none)
parse_opt env (opt_max_seg i) s = set_max_seg i s
parse_opt env (opt_client c) s = next_client c (add_client env s.opts s.clients) s
parse_opt env (opt_device d) s = set_device (env.parse_device_name d) s
parse_opt env (opt_ds_max n) s = (record s { opts = record (s.opts) { ds_max = n } }, none)
parse_opt env opt_readonly s = (record s { opts = record (s.opts) { readonly = true } }, none)
parse_opt env opt_dma_map_all s = (record s { opts = record (s.opts) { dma_map_all = true } }, none)
parse_opt env opt_dma_map_per_req s =
    (record s { opts = record (s.opts) { dma_map_all = false } }, none)
parse_opt env opt_other s = (s, some (negsuc 0))

abbrev pub last_client : ℕ → Option (List StaticClient) → Settings → Settings × ℤ
last_client optind none s = (s, negsuc 0)
last_client optind (some cs) s = (record s { clients = cs; level = s.debug_level }, pos optind)

-- Behind the loop, where `extra` says that there are arguments that are not options.
abbrev pub parse_end : Env → Bool → ℕ → Settings → Settings × ℤ
parse_end env extra optind s =
    if extra then (s, negsuc 0) else last_client optind (add_client env s.opts s.clients) s

abbrev pub go_on : Parsed → (Settings → Settings × ℤ) → Settings × ℤ
go_on (s, none) k = k s
go_on (s, some r) k = (s, r)

-- parse_args(): the options, then whether there are other arguments, and `optind`
unfoldable pub parse_args : Env → List Opt → Bool → ℕ → Settings → Settings × ℤ
parse_args env [] extra optind s = parse_end env extra optind s
parse_args env (o ∷ os) extra optind s = go_on (parse_opt env o s) (parse_args env os extra optind)

-- `if (int arg_idx = parse_args(argc, argv) < 0) return arg_idx;`: the value of the comparison is
-- what is returned. `none` goes on.
unfoldable pub main_returns : ℤ → Option ℕ
main_returns r = if is_negative r then some 1 else none
