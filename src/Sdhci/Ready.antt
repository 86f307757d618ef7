-- ===== src/Sdhci/Ready.antt =====
-- The SDHCI controllers after init() of server/src/drv_sdhci-impl.h.
use mathlib.Core.Path.{subst}
use emmc_driver.Base.{ℕ, zero, suc, ◌≡◌, refl, sym, Bool, true, false, List, [], ◌∷◌, done}
use emmc_driver.Reg.{Word, write_field}
use emmc_driver.Reg.Ops.{Hw, run_ops, after_ops, run_ops-ready}
use emmc_driver.Sdhci.{SdhciType, plain, usdhc, iproc, bcm2711}
use emmc_driver.Sdhci.Init.{
  offset, sys_ctrl, prot_ctrl, host_ctrl, mix_ctrl, tuning_ctrl, vend_spec, init,
}

-- `n` bits of `w` from `l` on, the lowest first
abbrev pub bits_from : Word → ℕ → ℕ → List Bool
bits_from w l zero = []
bits_from w l (suc n) = w l ∷ bits_from w (suc l) n

-- uSDHC: ADMA2 is selected, the mixer is clear, the standard tuning is on with its start, and the
-- clocks are enabled. Iproc and Bcm2711: internal clock, SD clock and PLL are enabled and no
-- reset is asked for, the card has 3.3 V, and 32-bit ADMA2 is selected. Plain SDHCI: the same for
-- clock and ADMA2, but the write of the clock asks for a reset again.
abbrev pub SetUp : SdhciType → Hw → Type 0
SetUp usdhc h =
    (bits_from (h.regs (offset prot_ctrl)) 8 2 ≡ false ∷ true ∷ [])
    × ((i : ℕ) → h.regs (offset mix_ctrl) i ≡ false)
    × (bits_from (h.regs (offset vend_spec)) 11 4 ≡ true ∷ true ∷ true ∷ true ∷ [])
    × (bits_from (h.regs (offset tuning_ctrl)) 24 1 ≡ true ∷ [])
    × (bits_from (h.regs (offset tuning_ctrl)) 0 7
        ≡ false ∷ false ∷ true ∷ false ∷ true ∷ false ∷ false ∷ [])
SetUp plain h =
    (bits_from (h.regs (offset sys_ctrl)) 0 4 ≡ true ∷ true ∷ true ∷ true ∷ [])
    × (bits_from (h.regs (offset host_ctrl)) 3 2 ≡ false ∷ true ∷ [])
    × (bits_from (h.regs (offset sys_ctrl)) 24 1 ≡ true ∷ [])
SetUp _ h =
    (bits_from (h.regs (offset sys_ctrl)) 0 4 ≡ true ∷ false ∷ true ∷ true ∷ [])
    × (bits_from (h.regs (offset host_ctrl)) 3 2 ≡ false ∷ true ∷ [])
    × (bits_from (h.regs (offset sys_ctrl)) 24 1 ≡ false ∷ [])
    × (bits_from (h.regs (offset host_ctrl)) 8 4 ≡ true ∷ true ∷ true ∷ true ∷ [])

after_init : (t : SdhciType) (sc : Word) (h : Hw) → SetUp t (after_ops (init t sc) h)
unfolding init after_ops write_field
after_init usdhc sc h = (refl, (λ i. refl), refl, refl, refl)
after_init plain sc h = (refl, refl, refl)
after_init iproc sc h = (refl, refl, refl, refl)
after_init bcm2711 sc h = (refl, refl, refl, refl)

-- Where the controller is always ready in time, `init()` ends on each kind of controller, whatever
-- the registers hold, and leaves it set up for ADMA2, with its clock running and, where the driver
-- sets it, 3.3 V; on a plain SDHCI controller the write that starts the clock asks for a reset of
-- everything once more.
pub init-SetUp :
    (ready : ℕ → Bool) (t : SdhciType) (sc : Word) (h : Hw)
    → ((n : ℕ) → ready n ≡ true)
    → let (h', r) = run_ops ready (init t sc) h in (r ≡ done tt) × SetUp t h'
init-SetUp ready t sc h k =
    subst (λ p. let (h', r) = p in (r ≡ done tt) × SetUp t h')
      (sym (run_ops-ready ready (init t sc) h k)) (refl, after_init t sc h)
