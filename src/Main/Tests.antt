-- ===== src/Main/Tests.antt =====
-- The theorems on the command line, on new clients and on the search for devices at small inputs.
use emmc_driver.Base.{
  ◌+◌, ◌≡◌, refl, true, false, List, [], ◌∷◌, none, some, done, einval, enodev, eagain, pos, arith,
}
use emmc_driver.PowerUp.{fallback}
use emmc_driver.Main.{
  Env, Settings, Opt, no_client, opt_verbose, opt_client, opt_device, opt_max_seg, parse_args,
  add_client, parse_opt, main_returns,
}
use emmc_driver.Main.Create.{
  Varg, text, refused, raised, Manager, bytes, op_create, op_create_from, take_param, int_param,
  strtol, skip_spaces, digits, strtol_unsigned, strncmp_equal,
}
use emmc_driver.Main.Asked.{Answered, op_create-Answered}
use emmc_driver.Main.Scan.{
  Scan, scan_start, Reach, Counted, scan-Counted, add_disk, device_scan_finished, found, loop_end,
  called_back, gave_up, start, later,
}

abbrev env : Env
env = record { parse_device_name = λ s. done s; has_cap = λ c. true }

abbrev settings : Settings
settings = record {
  device_type_disable = record {
    mmc = fallback;
    sd = record { sdr12 = false; sdr25 = false; sdr50 = false; sdr104 = false; ddr50 = false };
  };
  max_seg = 64;
  opts = no_client;
  debug_level = 1;
  level = 3;
  clients = [];
}

abbrev options : List Opt
options =
    opt_max_seg (pos 100)
    ∷ opt_client "vda"
    ∷ opt_device "PSN"
    ∷ opt_client "vdb"
    ∷ opt_verbose
    ∷ opt_device "GUID"
    ∷ []

options_run : (parse_args env options false 9 settings).1 ≡ pos 9
unfolding parse_args parse_opt add_client
options_run = refl

-- a client without a device is refused, but main() goes on
refused_run :
    parse_args env (opt_client "vda" ∷ opt_client "vdb" ∷ opt_max_seg (pos 5) ∷ []) false 9 settings
    ≡ (record settings { opts = record no_client { capname = some "vda" } }, pos 1)
unfolding parse_args parse_opt add_client
refused_run = refl

refused_goes_on : main_returns (pos 1) ≡ none
unfolding main_returns
refused_goes_on = refl

abbrev manager : Manager
manager = record { parse_device_name = λ s. done s; create_dynamic_client = λ c. refused enodev }

abbrev params : List Varg
params = text (bytes "device=PSN") 11 ∷ text (bytes "ds-max=12") 10 ∷ text (bytes "readonly") 9 ∷ []

params_run : op_create manager true params ≡ (
  refused eagain,
  record { device = bytes "PSN"; num_ds = pos 12; readonly = true; dma_map_all = true } ∷ [],
)
unfolding op_create op_create_from take_param int_param strtol skip_spaces digits strtol_unsigned
    strncmp_equal
params_run = refl

bad_number : op_create manager true (text (bytes "ds-max=12k") 11 ∷ []) ≡ (raised einval, [])
unfolding op_create op_create_from take_param int_param strtol skip_spaces digits strtol_unsigned
    strncmp_equal
bad_number = refl

op_create-Answered_example : Answered manager true (op_create manager true params)
op_create-Answered_example = op_create-Answered manager true params

-- two devices are found, of which one is set up before the search is over, and the other fails
abbrev two_found : Scan
two_found = add_disk (add_disk scan_start)

abbrev one_failed : Scan
one_failed =
    let s = device_scan_finished (record two_found { set_up = 1 }) in
    let t = device_scan_finished (record s { in_loop = false }) in
    record t { set_up = 0; failed = t.failed + 1 }

one_failed_reached : Reach one_failed
unfolding add_disk device_scan_finished
one_failed_reached =
    later
      (later
        (later
          (later (later start (found scan_start refl (omega arith)))
            (found (add_disk scan_start) refl (omega arith)))
          (called_back two_found 1 refl))
        (loop_end (device_scan_finished (record two_found { set_up = 1 })) refl))
      (gave_up _ 0 refl)

one_failed_run : one_failed.registered ≡ 0
unfolding add_disk device_scan_finished
one_failed_run = refl

scan-Counted_example : Counted one_failed
scan-Counted_example = scan-Counted one_failed_reached
