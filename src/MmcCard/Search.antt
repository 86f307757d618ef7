-- ===== src/MmcCard/Search.antt =====
-- The search of power_up_mmc() in server/src/device-impl.h comes to an end, command by command.
use emmc_driver.Base.{
  ℕ, zero, suc, ◌<◌, ◌≡◌, refl, ◌⊎◌, inl, inr, Bool, true, false, not, ◌||◌, Option, none, some,
  arith, Method, if◌then◌else◌,
}
use emmc_driver.Mmc.{voltage_180}
use emmc_driver.PowerUp.{DeviceType, Mode, RoundResult, fastest_mode, disable}
use emmc_driver.PowerUp.Ends.{modes_left, overlaps}
use emmc_driver.Session.{Env, Session, act, set_up, pure, set_voltage, delay}
use emmc_driver.Session.Switch.{mmc_set_bus_width}
use emmc_driver.Session.Post.{
  Any, all-Leaves, Post, Leaves, bind-Leaves, if-Leaves, pure-Leaves, weaken-Leaves,
}
use emmc_driver.MmcCard.Select.{
  fails, set_mode, set_hs400, hs400_part, try_mmc_mode, search_mmc_mode, mmc_rounds,
  voltage_delay_ms, on_round, on_mode,
}

-- what `device_type_test` is behind a round for the mode `m`
abbrev Tested : DeviceType → Mode → DeviceType → Type 0
Tested r m t =
    (t ≡ m.device_type_test)
    ⊎ ((r.hs400_ddr_18 ≡ true) × (t ≡ record (m.device_type_test) { hs200_sdr_18 = false }))

abbrev TestedBy : DeviceType → Mode → RoundResult → Session → Type 0
TestedBy r m res s = Tested r m res.1

hs400_part-Leaves :
    (env : Env) (strobe : Bool) (r : DeviceType) (m : Mode)
    → Leaves Any (TestedBy r m) (hs400_part env strobe r m.device_type_test)
unfolding hs400_part
hs400_part-Leaves env strobe r m =
    if-Leaves r.hs400_ddr_18
      (λ e.
        bind-Leaves (all-Leaves (set_hs400 env strobe))
          (λ ok. pure-Leaves _ (λ s p. inr (e, refl))))
      (λ e. pure-Leaves _ (λ s p. inl refl))

try_mmc_mode-Leaves :
    (env : Env) (strobe : Bool) (r : DeviceType) (m : Mode)
    → Leaves Any (TestedBy r m) (try_mmc_mode env strobe r m)
unfolding try_mmc_mode
try_mmc_mode-Leaves env strobe r m =
    bind-Leaves (all-Leaves (set_up env (set_voltage voltage_180))) (λ u.
      bind-Leaves (all-Leaves (act (delay voltage_delay_ms))) (λ u.
        bind-Leaves (all-Leaves (fails (mmc_set_bus_width env m.bus_width false))) (λ no_width.
          bind-Leaves (all-Leaves (worked no_width)) (λ ok.
            if-Leaves ok (λ e. hs400_part-Leaves env strobe r m)
              (λ e. pure-Leaves (false, m.device_type_test) (λ s p. inl refl))))))
  where
    worked : Bool → Method Session Bool
    worked no_width =
        if no_width
        then pure false
        else if not r.hs400_ddr_18 || not strobe
        then set_mode env m
        else pure true

tested-fewer :
    (r : DeviceType) (m : Mode) (t : DeviceType)
    → fastest_mode r ≡ some m
    → Tested r m t
    → modes_left (disable r t) < modes_left r
unfolding fastest_mode
tested-fewer r m t h (inl e) = rw (e) ground (arith, h)
tested-fewer r m t h (inr (k, e)) = rw (e) ground (arith, h, k)

tested-overlaps :
    (r : DeviceType) (m : Mode) (t : DeviceType)
    → fastest_mode r ≡ some m
    → Tested r m t
    → overlaps r t ≡ true
unfolding fastest_mode
tested-overlaps r m t h (inl e) = rw (e) ground (arith, h)
tested-overlaps r m t h (inr (k, e)) = rw (e) ground (arith, h, k)

-- A search that ended with a type that shares a bit with the type `r`, or with an exception.
abbrev pub Selects : DeviceType → Option DeviceType → Session → Type 0
Selects r none s = ⊥
Selects r (some t) s = overlaps r t ≡ true

overlaps-disable : (r t u : DeviceType) → overlaps (disable r t) u ≡ true → overlaps r u ≡ true
overlaps-disable r t u h = ground (arith, h)

Selects-disable :
    (r t : DeviceType) (o : Option DeviceType) (s : Session)
    → Selects (disable r t) o s
    → Selects r o s
Selects-disable r t none s h = h
Selects-disable r t (some u) s h = overlaps-disable r t u h

-- what is left of a search behind a round
behind :
    (r : DeviceType) (m : Mode) (rest : DeviceType → Method Session (Option DeviceType))
    (res : RoundResult)
    → fastest_mode r ≡ some m
    → ((t : DeviceType)
        → modes_left (disable r t) < modes_left r
        → Leaves Any (Selects (disable r t)) (rest (disable r t)))
    → Leaves (TestedBy r m res) (Selects r) (on_round res (rest (disable r res.1)))
behind r m rest (true, t) h k = pure-Leaves (some t) (λ s p. tested-overlaps r m t h p)
behind r m rest (false, t) h k = record {
  leave = λ s p. (weaken-Leaves (Selects-disable r t) (k t (tested-fewer r m t h p))).leave s tt;
}

on_mode-Leaves :
    (r : DeviceType) (o : Option Mode) (try_it : Mode → Method Session (Option DeviceType))
    → ((m : Mode) → o ≡ some m → Leaves Any (Selects r) (try_it m))
    → Leaves Any (Selects r) (on_mode o try_it)
on_mode-Leaves r none try_it k = record { leave = λ s p. tt }
on_mode-Leaves r (some m) try_it k = k m refl

search_mmc_mode-Leaves :
    (n : ℕ) (env : Env) (strobe : Bool) (r : DeviceType)
    → modes_left r < n
    → Leaves Any (Selects r) (search_mmc_mode n env strobe r)
unfolding search_mmc_mode
search_mmc_mode-Leaves zero env strobe r h = absurd (omega arith)
search_mmc_mode-Leaves (suc n) env strobe r h = on_mode-Leaves r (fastest_mode r) _ (λ m e.
    bind-Leaves (try_mmc_mode-Leaves env strobe r m) (λ res.
      behind r m (search_mmc_mode n env strobe) res e
        (λ t k. search_mmc_mode-Leaves n env strobe (disable r t) (omega (arith, h, k)))))

-- The search of `power_up_mmc()` ends within six rounds, whatever the device and the controller
-- answer to its commands: it throws, or it selects a type that shares a mode with the types that the
-- device has and that are not disabled.
pub search_mmc_mode-Selects :
    (env : Env) (enh_strobe : Bool) (r : DeviceType) (s : Session)
    → Post (Selects r) (search_mmc_mode mmc_rounds env enh_strobe r s)
search_mmc_mode-Selects env enh_strobe r s =
    (search_mmc_mode-Leaves mmc_rounds env enh_strobe r (six r)).leave s tt
  where
    six : (r : DeviceType) → modes_left r < 6
    six r = ground arith
