-- ===== src/Sdhci/Setup/Modes.antt =====
-- set_clock_and_timing() of server/src/drv_sdhci-impl.h: what the registers of uSDHC hold then.
use emmc_driver.Base.{
  ap, continue, ◌||◌, ℕ, ◌≡◌, refl, inl, inr, Bool, true, false, ◌&&◌, Outcome, done, throws, eio,
  Method, ◌==◌, if◌then◌else◌, Bool-cases,
}
use emmc_driver.Mmc.{Timing, legacy, hs, mmc_hs400}
use emmc_driver.Clock.{set_clock_usdhc}
use emmc_driver.Sdhci.Setup.{
  Usdhc, Wait, gate_off, clock_stable, strobe_locked, tuning_disabled, poll, clock_disable,
  clock_enable, set_strobe_dll, reset_tuning, is_ddr, select_timing, start_clock,
  set_clock_and_timing,
}

abbrev pub is_hs400 : Timing → Bool
is_hs400 mmc_hs400 = true
is_hs400 t = false

abbrev pub is_legacy : Timing → Bool
is_legacy legacy = true
is_legacy t = false

-- The registers with a clock for the timing `t`: just the double data rate modes have `ddr_en`, HS400
-- has its bits, and the line for the strobe, too, and `auto_tune_en` is as before, also for Legacy.
abbrev pub running : ℕ → ℕ → Timing → Bool → Usdhc → Usdhc
running host freq t strobe s = record s {
  frc_sdclk_on = true;
  sys = set_clock_usdhc host freq (is_ddr t);
  mix = record (s.mix) {
    ddr_en = is_ddr t;
    hs400_mo = is_hs400 t;
    en_hs400_mo = is_hs400 t && strobe;
  };
  strobe_dll = is_hs400 t;
  execute_tuning = if is_legacy t then false else s.execute_tuning;
  smp_clk_sel = if is_legacy t then false else s.smp_clk_sel;
  ddr_active = is_ddr t;
}

abbrev pub expected : ℕ → ℕ → Timing → Bool → Usdhc → Usdhc
expected host freq t strobe s =
    if freq == 0 then record s { frc_sdclk_on = false } else running host freq t strobe s

-- whether none of the waits for the timing times out
abbrev pub timing_ready : (Wait → Bool) → Timing → Bool
timing_ready ready mmc_hs400 = ready strobe_locked
timing_ready ready legacy = ready tuning_disabled
timing_ready ready t = true

abbrev pub all_ready : (Wait → Bool) → ℕ → Timing → Bool
all_ready ready freq t =
    ready gate_off && (freq == 0 || (timing_ready ready t && ready clock_stable))

abbrev pub Ends : Bool → Usdhc → Usdhc × Outcome (Unit {0}) → Type 0
Ends true s r = r ≡ (s, done tt)
Ends false s r = r.1 ≡ throws eio

-- the last step of start_clock()
enabled :
    (ready : Wait → Bool) (s e : Usdhc)
    → record s { frc_sdclk_on = true } ≡ e
    → Ends (ready clock_stable) e (clock_enable ready s)
unfolding clock_enable poll
enabled ready s e h = on_wait (ready clock_stable) h
  where
    on_wait :
        (b : Bool)
        → record s { frc_sdclk_on = true } ≡ e
        → Ends b e (
            if b
            then (record s { frc_sdclk_on = true }, done tt)
            else (record s { frc_sdclk_on = true }, throws eio))
    on_wait true h = ap (λ x. (x, done tt)) h
    on_wait false h = refl

-- a wait between two steps
waited :
    (b c : Bool) (s e : Usdhc) (k : Method Usdhc (Unit {0}))
    → Ends c e (k s)
    → Ends (b && c) e (continue (if b then (s, done tt) else (s, throws eio)) (λ u. k))
waited true c s e k h = h
waited false c s e k h = refl

start_clock-Ends :
    (ready : Wait → Bool) (host freq : ℕ) (t : Timing) (strobe : Bool) (s : Usdhc)
    → Ends
        (timing_ready ready t && ready clock_stable)
        (running host freq t strobe s)
        (start_clock ready host freq t strobe s)
unfolding start_clock select_timing set_strobe_dll reset_tuning poll
start_clock-Ends ready host freq mmc_hs400 strobe s = elim (Bool-cases (ready strobe_locked)) [
  | inl e ↦ rw (e) (enabled ready _ _ (en_strobe strobe))
  | inr e ↦ rw (e) refl
]
  where
    en_strobe :
        (b : Bool)
        → running host freq mmc_hs400 (if b then true else false) s
          ≡ running host freq mmc_hs400 b s
    en_strobe true = refl
    en_strobe false = refl
start_clock-Ends ready host freq legacy strobe s = elim (Bool-cases (ready tuning_disabled)) [
  | inl e ↦ rw (e) (enabled ready _ _ refl)
  | inr e ↦ rw (e) refl
]
start_clock-Ends ready host freq hs strobe s = enabled ready _ _ refl
start_clock-Ends ready host freq t strobe s = enabled ready _ _ refl

-- On uSDHC, `set_clock_and_timing()` throws EIO just where one of its waits for the controller times
-- out, and else the registers are as described for the timing; without a frequency only the clock
-- is stopped.
pub set_clock_and_timing_lem :
    (ready : Wait → Bool) (host freq : ℕ) (t : Timing) (strobe : Bool) (s : Usdhc)
    → Ends
        (all_ready ready freq t)
        (expected host freq t strobe s)
        (set_clock_and_timing ready host freq t strobe s)
unfolding set_clock_and_timing clock_disable poll
set_clock_and_timing_lem ready host freq t strobe s =
    waited (ready gate_off) _ _ _ _ (on_freq (freq == 0))
  where
    on_freq :
        (b : Bool)
        → Ends
            (b || (timing_ready ready t && ready clock_stable))
            (if b then record s { frc_sdclk_on = false } else running host freq t strobe s)
            ((if b then (λ s. (s, done tt)) else start_clock ready host freq t strobe)
              (record s { frc_sdclk_on = false }))
    on_freq true = refl
    on_freq false = start_clock-Ends ready host freq t strobe (record s { frc_sdclk_on = false })
