-- ===== src/Cpg/Tests.antt =====
-- The theorem on enable_clock() at the clock of the SDHI controller.
use emmc_driver.Base.{ℕ, ◌≡◌, refl, true, [], none, arith, ltb, get_or}
use emmc_driver.Reg.{Word}
use emmc_driver.Reg.Ops.{Hw}
use emmc_driver.Cpg.{enable_clock, poll_status, smstpcr, mstpsr}
use emmc_driver.Cpg.Enable.{Cleared, Polled, enable_clock_lem}

abbrev stopped : Hw
stopped = record { regs = λ r i. true; log = [] }

-- the module answers at the fourth poll
abbrev answers : ℕ → ℕ → Word
answers k r i = ltb k 3

enabled_run : (enable_clock answers 3 12 stopped).1 ≡ none
unfolding enable_clock poll_status
enabled_run = refl

enable_clock_lem_example :
    let (h', o) = enable_clock answers 3 12 stopped in
    Cleared (get_or smstpcr 3 0) 12 stopped h' × Polled answers (get_or mstpsr 3 0) 12 20 0 o
enable_clock_lem_example = enable_clock_lem answers 3 12 stopped (omega arith) (omega arith)
