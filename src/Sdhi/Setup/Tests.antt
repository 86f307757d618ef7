-- ===== src/Sdhi/Setup/Tests.antt =====
-- The theorems on the set-up of the SDHI controller, from registers that hold zeros.
use emmc_driver.Base.{
  ℕ, ◌≡◌, refl, ◌≢◌, ◌<◌, Bool, true, false, not, [], done, ◌==◌, if◌then◌else◌, ltb, throws, eio,
}
use emmc_driver.Reg.{word}
use emmc_driver.Reg.Ops.{Hw, zeros, run_ops}
use emmc_driver.Sdhi.{set_clock}
use emmc_driver.Sdhi.Setup.{
  offset, sd_clk_ctrl, init, set_clock_and_timing, clock_disable, clock_enable, set_clock_div,
}
use emmc_driver.Sdhi.Stopped.{
  runs, SafeLog, set_clock_and_timing-SafeLog, set_clock_and_timing-Runs,
}
use emmc_driver.Sdhi.Ready.{Masked, Running, init-Running}

abbrev blank_regs : Hw
blank_regs = record { regs = λ r. zeros; log = [] }

abbrev always : ℕ → Bool
always n = true

set_clock_and_timing-SafeLog_example :
    SafeLog (run_ops (λ n. ltb n 2) (set_clock_and_timing 400000) blank_regs).0.log
set_clock_and_timing-SafeLog_example =
    set_clock_and_timing-SafeLog (λ n. ltb n 2) 400000 blank_regs tt

-- where the controller is not ready for the last write, the clock stays stopped
stays_stopped : (run_ops (λ n. ltb n 2) (set_clock_and_timing 400000) blank_regs).1 ≡ throws eio
unfolding set_clock_and_timing clock_disable clock_enable set_clock_div run_ops
stays_stopped = refl

set_clock_and_timing-Runs_example :
    let (h', r) = run_ops always (set_clock_and_timing 400000) blank_regs in
    (r ≡ done tt)
    × (runs (h'.regs (offset sd_clk_ctrl)) ≡ not (400000 == 0))
    × ((i : ℕ) → 8 < i → h'.regs (offset sd_clk_ctrl) i ≡ false)
    × ((i : ℕ)
        → i < 8
        → h'.regs (offset sd_clk_ctrl) i
          ≡ (if 400000 == 0 then false else word (set_clock 400000) i))
    × ((a : ℕ) → a ≢ offset sd_clk_ctrl → h'.regs a ≡ zeros)
set_clock_and_timing-Runs_example = set_clock_and_timing-Runs always 400000 blank_regs (λ n. refl)

init-Running_example :
    let (h', r) = run_ops always init blank_regs in (r ≡ done tt) × Masked h' × Running h'
init-Running_example = init-Running always blank_regs (λ n. refl)
