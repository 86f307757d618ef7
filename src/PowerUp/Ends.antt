-- ===== src/PowerUp/Ends.antt =====
-- The search of power_up_mmc() in server/src/device-impl.h comes to an end.
use emmc_driver.Base.{
  ℕ, zero, suc, ◌+◌, ◌<◌, ◌≡◌, refl, Bool, true, false, ◌&&◌, ◌||◌, Option, none, some, Outcome,
  done, throws, einval, arith, if◌then◌else◌,
}
use emmc_driver.PowerUp.{
  mmc_set_timing_fails, timing_hs200, tuning_loop, max_loops, DeviceType, Mode, Answers,
  RoundResult, fallback, disable, fastest_mode, try_mode, search_mode, with_mode, next_round,
}

abbrev bit : Bool → ℕ
bit b = if b then 1 else 0

-- the number of modes that are left
abbrev pub modes_left : DeviceType → ℕ
modes_left r = bit r.hs400_ddr_18 + bit r.hs200_sdr_18 + bit r.hs52_ddr_18 + bit r.hs52 + bit r.hs26

-- A mode that is chosen has a bit that is left, and a round that fails takes at least one away.
round-fewer :
    (enh_strobe : Bool) (a : Answers) (r : DeviceType) (m : Mode)
    → fastest_mode r ≡ some m
    → modes_left (disable r (try_mode enh_strobe a r m).1) < modes_left r
unfolding fastest_mode try_mode
round-fewer enh_strobe a r m h = ground (arith, h)

-- a common bit
abbrev pub overlaps : DeviceType → DeviceType → Bool
overlaps r t =
    r.hs400_ddr_18 && t.hs400_ddr_18
    || (r.hs200_sdr_18 && t.hs200_sdr_18
        || (r.hs52_ddr_18 && t.hs52_ddr_18 || (r.hs52 && t.hs52 || r.hs26 && t.hs26)))

round-overlaps :
    (enh_strobe : Bool) (a : Answers) (r : DeviceType) (m : Mode)
    → fastest_mode r ≡ some m
    → overlaps r (try_mode enh_strobe a r m).1 ≡ true
unfolding fastest_mode try_mode
round-overlaps enh_strobe a r m h = ground (arith, h)

overlaps-disable : (r t u : DeviceType) → overlaps (disable r t) u ≡ true → overlaps r u ≡ true
overlaps-disable r t u h = ground (arith, h)

-- The search has ended: with a type that has a bit of those given, or with an exception.
abbrev pub Selects : DeviceType → Option (Outcome DeviceType) → Type 0
Selects r none = ⊥
Selects r (some (done t)) = overlaps r t ≡ true
Selects r (some (throws e)) = e ≡ einval

Selects-disable :
    (r t : DeviceType) (o : Option (Outcome DeviceType)) → Selects (disable r t) o → Selects r o
Selects-disable r t none h = h
Selects-disable r t (some (done u)) h = overlaps-disable r t u h
Selects-disable r t (some (throws e)) h = h

next_round-Selects :
    (r : DeviceType) (res : RoundResult) (rest : Option (Outcome DeviceType))
    → overlaps r res.1 ≡ true
    → Selects (disable r res.1) rest
    → Selects r (next_round res rest)
next_round-Selects r (true, t) rest o h = o
next_round-Selects r (false, t) rest o h = Selects-disable r t rest h

-- what is left of the search behind a round
abbrev behind : ℕ → Bool → (ℕ → Answers) → DeviceType → Mode → Option (Outcome DeviceType)
behind fuel enh_strobe answers r m =
    search_mode fuel enh_strobe answers (disable r (try_mode enh_strobe (answers fuel) r m).1)

with_mode-Selects :
    (fuel : ℕ) (enh_strobe : Bool) (answers : ℕ → Answers) (r : DeviceType) (o : Option Mode)
    → fastest_mode r ≡ o
    → ((m : Mode)
        → fastest_mode r ≡ some m
        → Selects
            (disable r (try_mode enh_strobe (answers fuel) r m).1)
            (behind fuel enh_strobe answers r m))
    → Selects r (
        with_mode o (λ m.
          next_round (try_mode enh_strobe (answers fuel) r m) (behind fuel enh_strobe answers r m)))
with_mode-Selects fuel enh_strobe answers r none h k = refl
with_mode-Selects fuel enh_strobe answers r (some m) h k =
    next_round-Selects r (try_mode enh_strobe (answers fuel) r m)
      (behind fuel enh_strobe answers r m) (round-overlaps enh_strobe (answers fuel) r m h) (k m h)

-- The search for a mode ends, whatever the device and the controller answer: after at most one
-- round for each mode that is left and one more, with a mode that was left, or with EINVAL.
pub search_mode-Selects :
    (fuel : ℕ) (enh_strobe : Bool) (answers : ℕ → Answers) (r : DeviceType)
    → modes_left r < fuel
    → Selects r (search_mode fuel enh_strobe answers r)
unfolding search_mode
search_mode-Selects zero enh_strobe answers r h = absurd (omega arith)
search_mode-Selects (suc fuel) enh_strobe answers r h =
    with_mode-Selects fuel enh_strobe answers r (fastest_mode r) refl (λ m e.
      search_mode-Selects fuel enh_strobe answers
        (disable r (try_mode enh_strobe (answers fuel) r m).1)
        (omega (arith, round-fewer enh_strobe (answers fuel) r m e)))

-- Where HS200 works on a device without HS400, the type that is selected has the bit of HS400 too.
pub search_mode_hs200 :
    (fuel : ℕ) (enh_strobe : Bool) (answers : ℕ → Answers) (r : DeviceType)
    → r.hs400_ddr_18 ≡ false
    → r.hs200_sdr_18 ≡ true
    → (answers fuel).width_error ≡ false
    → mmc_set_timing_fails timing_hs200 (answers fuel).timing ≡ false
    → tuning_loop max_loops (answers fuel).tuning ≡ true
    → search_mode (suc fuel) enh_strobe answers r
      ≡ some (done (record fallback { hs400_ddr_18 = true; hs200_sdr_18 = true }))
unfolding search_mode fastest_mode try_mode
search_mode_hs200 fuel enh_strobe answers r a b c d e = rw (a, b, c, d, e) refl
