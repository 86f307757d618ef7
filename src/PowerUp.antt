-- ===== src/PowerUp.antt =====
-- server/src/device-impl.h, power_up_mmc(): the search for the fastest mode of an eMMC device that
-- works, with mmc_set_timing() and the tuning loop. What the device and the controller answer is an
-- argument: for each round of the search the answers to the commands that the round may send.
pub mod Ends
use emmc_driver.Base.{
  ℕ, zero, suc, ◌+◌, ◌*◌, Bool, true, false, not, ◌&&◌, ◌||◌, Option, none, some, Outcome, done,
  throws, einval, ◌==◌, if◌then◌else◌,
}
use emmc_driver.Mmc.{Timing, hs, mmc_ddr52, mmc_hs200}

-- The bits of Ec196_device_type that the search looks at; disable_12() has cleared the others.
pub record DeviceType : Type 0 where
  pub hs400_ddr_18 : Bool
  pub hs200_sdr_18 : Bool
  pub hs52_ddr_18 : Bool
  pub hs52 : Bool
  pub hs26 : Bool

abbrev pub fallback : DeviceType
fallback = record {
  hs400_ddr_18 = false;
  hs200_sdr_18 = false;
  hs52_ddr_18 = false;
  hs52 = false;
  hs26 = false;
}

-- `restricted.raw &= ~test.raw`
abbrev pub disable : DeviceType → DeviceType → DeviceType
disable r t = record {
  hs400_ddr_18 = r.hs400_ddr_18 && not t.hs400_ddr_18;
  hs200_sdr_18 = r.hs200_sdr_18 && not t.hs200_sdr_18;
  hs52_ddr_18 = r.hs52_ddr_18 && not t.hs52_ddr_18;
  hs52 = r.hs52 && not t.hs52;
  hs26 = r.hs26 && not t.hs26;
}

-- Ec185_hs_timing::Timing and Ec183_bus_width::Width
pub data HsTiming : Type 0 where
  backward_compat timing_hs timing_hs200 timing_hs400 : HsTiming

abbrev pub hs_timing_value : HsTiming → ℕ
hs_timing_value backward_compat = 0
hs_timing_value timing_hs = 1
hs_timing_value timing_hs200 = 2
hs_timing_value timing_hs400 = 3

pub data Width : Type 0 where
  w_8bit_sdr w_8bit_ddr : Width

-- The settings of a round.
pub record Mode : Type 0 where
  pub freq : ℕ
  pub hs_timing : HsTiming
  pub mmc_timing : Timing
  pub bus_width : Width
  pub device_type_test : DeviceType

abbrev pub mhz : ℕ
mhz = 1000 * 1000

unfoldable pub fastest_mode : DeviceType → Option Mode
fastest_mode r =
    if r.hs200_sdr_18
    then some (record {
      freq = 200 * mhz;
      hs_timing = timing_hs200;
      mmc_timing = mmc_hs200;
      bus_width = w_8bit_sdr;
      device_type_test = record fallback { hs400_ddr_18 = true; hs200_sdr_18 = true };
    })
    else if r.hs52_ddr_18
    then some (record {
      freq = 52 * mhz;
      hs_timing = timing_hs;
      mmc_timing = mmc_ddr52;
      bus_width = w_8bit_ddr;
      device_type_test = record fallback { hs52_ddr_18 = true };
    })
    else if r.hs52
    then some (record {
      freq = 52 * mhz;
      hs_timing = timing_hs;
      mmc_timing = hs;
      bus_width = w_8bit_sdr;
      device_type_test = record fallback { hs52 = true };
    })
    else if r.hs26
    then some (record {
      freq = 26 * mhz;
      hs_timing = backward_compat;
      mmc_timing = hs;
      bus_width = w_8bit_sdr;
      device_type_test = record fallback { hs26 = true };
    })
    else none

-- The answers to the commands of mmc_set_timing(): whether CMD6, CMD13 and CMD8 failed, by an error
-- of the command or by a switch error in the response, and the timing that EXT_CSD then shows.
pub record TimingAnswer : Type 0 where
  pub switch_failed : Bool
  pub status_failed : Bool
  pub ecsd_failed : Bool
  pub timing_interface : ℕ

-- Whether mmc_set_timing() leaves the command in an error state.
unfoldable pub mmc_set_timing_fails : HsTiming → TimingAnswer → Bool
mmc_set_timing_fails t a =
    a.switch_failed
    || (a.status_failed || (a.ecsd_failed || not (a.timing_interface == hs_timing_value t)))

-- The answer to a tuning command.
pub data TuningAnswer : Type 0 where
  tuned : Bool → TuningAnswer
  unfinished timeout other_error : TuningAnswer

-- The tuning loop, for as many rounds as are left.
unfoldable pub tuning_loop : ℕ → (ℕ → TuningAnswer) → Bool
tuning_loop zero answers = false
tuning_loop (suc n) answers =
    let rest = tuning_loop n answers in
    elim (answers n) [ tuned s ↦ s | unfinished ↦ rest | timeout ↦ false | other_error ↦ rest ]

abbrev pub max_loops : ℕ
max_loops = 40

-- All answers of a round; `width_error` and `ddr_error` are errors of mmc_set_bus_width().
pub record Answers : Type 0 where
  pub width_error : Bool
  pub timing : TimingAnswer
  pub tuning : ℕ → TuningAnswer
  pub hs_timing : TimingAnswer
  pub ddr_error : Bool
  pub hs400_timing : TimingAnswer

-- What a round comes to: whether its mode works, and `device_type_test` at that point.
abbrev pub RoundResult : Type 0
RoundResult = Bool × DeviceType

-- the part of a round for HS400
abbrev pub hs400_step : Answers → DeviceType → DeviceType → RoundResult
hs400_step a restricted test =
    if restricted.hs400_ddr_18
    then (
      not (
          mmc_set_timing_fails timing_hs a.hs_timing
          || (a.ddr_error || mmc_set_timing_fails timing_hs400 a.hs400_timing)),
      record test { hs200_sdr_18 = false },
    )
    else (true, test)

unfoldable pub try_mode : Bool → Answers → DeviceType → Mode → RoundResult
try_mode enh_strobe a restricted m =
    if a.width_error
    then (false, m.device_type_test)
    else if not restricted.hs400_ddr_18 || not enh_strobe
    then if mmc_set_timing_fails m.hs_timing a.timing
      then (false, m.device_type_test)
      else if m.device_type_test.hs200_sdr_18 && not (tuning_loop max_loops a.tuning)
      then (false, m.device_type_test)
      else hs400_step a restricted m.device_type_test
    else hs400_step a restricted m.device_type_test

-- `continue` and `break`
abbrev pub next_round : RoundResult → Option (Outcome DeviceType) → Option (Outcome DeviceType)
next_round (true, test) rest = some (done test)
next_round (false, test) rest = rest

abbrev pub with_mode :
    Option Mode → (Mode → Option (Outcome DeviceType)) → Option (Outcome DeviceType)
with_mode none try_it = some (throws einval)
with_mode (some m) try_it = try_it m

-- The search, with the device types that are left, and fuel for its rounds; the answers are those of
-- the remaining rounds. Given is `_device_type_selected`.
unfoldable pub search_mode : ℕ → Bool → (ℕ → Answers) → DeviceType → Option (Outcome DeviceType)
search_mode zero enh_strobe answers r = none
search_mode (suc fuel) enh_strobe answers r = with_mode (fastest_mode r) (λ m.
    let result = try_mode enh_strobe (answers fuel) r m in
    next_round result (search_mode fuel enh_strobe answers (disable r result.1)))
