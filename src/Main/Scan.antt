-- ===== src/Main/Scan.antt =====
-- device_discovery() and device_scan_finished() of server/src/main.cc: the devices are counted that
-- are still being set up, and the server registers itself for clients when there are none left.
-- A device that is set up calls device_scan_finished() from the server loop; one whose set-up fails
-- never does (the end of start_device_scan() in server/src/device-impl.h).
use emmc_driver.Base.{
  ℕ, suc, ◌+◌, ◌-◌, ◌%◌, ◌^◌, ◌<◌, ◌≡◌, refl, Bool, true, false, ltb, ◌==◌, arith, if◌then◌else◌,
}

-- `in_loop` says whether device_discovery() is in its loop; `set_up` and `failed` count the devices
-- that are being set up, and those whose set-up has failed; `registered` counts the calls of
-- `register_obj()`.
pub record Scan : Type 0 where
  pub devices_in_scan : ℕ
  pub devices_found : ℕ
  pub scan_in_progress : Bool
  pub registered : ℕ
  pub in_loop : Bool
  pub set_up : ℕ
  pub failed : ℕ

-- The start of device_discovery()
abbrev pub scan_start : Scan
scan_start = record {
  devices_in_scan = 1;
  devices_found = 0;
  scan_in_progress = true;
  registered = 0;
  in_loop = true;
  set_up = 0;
  failed = 0;
}

unfoldable pub device_scan_finished : Scan → Scan
device_scan_finished s = if ltb 0 left then record s { devices_in_scan = left } else record s {
  devices_in_scan = left;
  scan_in_progress = false;
  registered = s.registered + 1;
}
  where
    left : ℕ
    left = (s.devices_in_scan + (2 ^ 32 - 1)) % 2 ^ 32

-- A device that create_dev() takes
unfoldable pub add_disk : Scan → Scan
add_disk s = record s {
  devices_in_scan = (s.devices_in_scan + 1) % 2 ^ 32;
  devices_found = (s.devices_found + 1) % 2 ^ 32;
  set_up = s.set_up + 1;
}

-- The set-up of devices goes on while device_discovery() is in its loop.
pub data Step : Scan → Scan → Type 0 where
  found : (s : Scan) → s.in_loop ≡ true → s.set_up + s.failed + 2 < 2 ^ 32 → Step s (add_disk s)
  loop_end :
      (s : Scan) → s.in_loop ≡ true → Step s (device_scan_finished (record s { in_loop = false }))
  called_back :
      (s : Scan) (n : ℕ)
      → s.set_up ≡ suc n
      → Step s (device_scan_finished (record s { set_up = n }))
  gave_up :
      (s : Scan) (n : ℕ)
      → s.set_up ≡ suc n
      → Step s (record s { set_up = n; failed = s.failed + 1 })

pub data Reach : Scan → Type 0 where
  start : Reach scan_start
  later : {s t : Scan} → Reach s → Step s t → Reach t

abbrev one_if : Bool → ℕ
one_if true = 1
one_if false = 0

-- the calls of device_scan_finished() that are still to come, or never come
abbrev pub awaited : Scan → ℕ
awaited s = one_if s.in_loop + s.set_up + s.failed

-- The counter is the number of calls awaited, and the server is registered when it is zero.
abbrev pub Counted : Scan → Type 0
Counted s =
    (s.devices_in_scan ≡ awaited s)
    × (awaited s < 2 ^ 32)
    × (s.registered ≡ (if awaited s == 0 then 1 else 0))
    × (s.scan_in_progress ≡ (if awaited s == 0 then false else true))

Step-Counted : {s t : Scan} → Step s t → Counted s → Counted t
unfolding add_disk device_scan_finished
Step-Counted (found s l b) c = ground (arith, c)
Step-Counted (loop_end s l) c = ground (arith, c)
Step-Counted (called_back s n e) c = ground (arith, c)
Step-Counted (gave_up s n e) c = ground (arith, c)

-- However the set-up of devices interleaves with the search for devices, the server registers itself
-- once and ends the scan exactly when the search is over and every device found was set up; it never
-- does so where the set-up of one device has failed.
pub scan-Counted : {s : Scan} → Reach s → Counted s
scan-Counted start = (refl, omega arith, refl, refl)
scan-Counted (later r st) = Step-Counted st (scan-Counted r)
