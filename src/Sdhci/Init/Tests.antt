-- ===== src/Sdhci/Init/Tests.antt =====
-- The theorem on the set-up of an SDHCI controller at the one of a Raspberry Pi.
use emmc_driver.Base.{ℕ, ◌≡◌, refl, Bool, true, [], done}
use emmc_driver.Reg.Ops.{Hw, zeros, run_ops}
use emmc_driver.Sdhci.{bcm2711}
use emmc_driver.Sdhci.Init.{init}
use emmc_driver.Sdhci.Ready.{SetUp, init-SetUp}

abbrev blank_regs : Hw
blank_regs = record { regs = λ r. zeros; log = [] }

abbrev always : ℕ → Bool
always n = true

init-SetUp_example :
    let (h', r) = run_ops always (init bcm2711 zeros) blank_regs in (r ≡ done tt) × SetUp bcm2711 h'
init-SetUp_example = init-SetUp always bcm2711 zeros blank_regs (λ n. refl)
