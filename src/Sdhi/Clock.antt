-- ===== src/Sdhi/Clock.antt =====
-- The clock that set_clock() of server/src/drv_sdhi.cc chooses.
use emmc_driver.Base.{ℕ, ◌*◌, ◌/◌, ◌≤◌, ◌<◌, ◌≡◌, ◌≢◌, Outcome, done, throws, einval, arith}
use emmc_driver.Sdhi.{divisor, set_divisor, find_clk_div, set_clock, host_clock}

-- For every frequency that the controller can divide its clock down to and that is below the clock
-- itself, `set_clock()` chooses the fastest clock that is not above the frequency: twice the clock
-- would be above it.
pub set_clock_lem :
    (freq : ℕ)
    → host_clock / 512 ≤ freq
    → freq < host_clock
    → let clock = host_clock / divisor (set_clock freq) in (clock ≤ freq) × (freq < 2 * clock)
unfolding set_clock find_clk_div divisor
set_clock_lem freq l h = ground (arith, l, h)

abbrev pub ReadsBack : ℕ → Outcome ℕ → Type 0
ReadsBack d (done div) = divisor div ≡ d
ReadsBack d (throws e) = (e ≡ einval) × (d ≢ 1)

-- A divisor that `set_divisor()` takes is the one that `divisor()` reads back; for others, and never
-- for 1, it throws EINVAL.
pub divisor-set_divisor : (d : ℕ) → ReadsBack d (set_divisor d)
unfolding set_divisor divisor
divisor-set_divisor d = ground arith
