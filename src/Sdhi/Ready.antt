-- ===== src/Sdhi/Ready.antt =====
-- The SDHI controller after init() of server/src/drv_sdhi.cc, and whichever registers it had before.
use mathlib.Core.Path.{subst}
use emmc_driver.Base.{ℕ, ◌+◌, ◌<◌, ◌≡◌, refl, sym, Bool, true, false, done, arith}
use emmc_driver.Reg.{write_field, word}
use emmc_driver.Reg.Ops.{Hw, run_ops, after_ops, run_ops-ready}
use emmc_driver.Sdhi.Setup.{
  offset, sd_clk_ctrl, sd_info1_mask, soft_rst, sdif_mode, dm_cm_info1_mask, dm_cm_info2_mask,
  sdio_info1_mask, host_mode, dm_cm_rst, init, mask_interrupts,
}
use emmc_driver.Sdhi.Stopped.{runs, SameDiv}

-- No interrupt of the card or of the DMA gets through, and none of the three of SDIO: its own
-- one (bit 0), and those for the ends of CMD52 (bit 14) and of a wait (bit 15).
abbrev pub Masked : Hw → Type 0
Masked h =
    ((i : ℕ)
      → i < 16
      → (h.regs (offset sd_info1_mask) i ≡ true) × (h.regs (offset sd_info1_mask + 8) i ≡ true))
    × ((i : ℕ)
        → (h.regs (offset dm_cm_info1_mask) i ≡ true) × (h.regs (offset dm_cm_info2_mask) i ≡ true))
    × ((h.regs (offset sdio_info1_mask) 0 ≡ true)
        × (h.regs (offset sdio_info1_mask) 14 ≡ true)
        × (h.regs (offset sdio_info1_mask) 15 ≡ true))

-- The clock runs at a quarter of the host's clock; neither the controller nor its two DMA channels
-- are in reset; the mode for HS400 is off; and the bus to the host has 64 bits.
abbrev pub Running : Hw → Type 0
Running h =
    (runs (h.regs (offset sd_clk_ctrl)) ≡ true)
    × SameDiv (h.regs (offset sd_clk_ctrl)) (word 1)
    × (h.regs (offset soft_rst) 0 ≡ true)
    × ((h.regs (offset dm_cm_rst) 8 ≡ true) × (h.regs (offset dm_cm_rst) 9 ≡ true))
    × ((i : ℕ) → h.regs (offset sdif_mode) i ≡ false)
    × ((h.regs (offset host_mode) 0 ≡ false) × (h.regs (offset host_mode) 8 ≡ false))

after_init : (h : Hw) → Masked (after_ops init h) × Running (after_ops init h)
unfolding init mask_interrupts after_ops write_field
after_init h = (
  ((λ i l. ground (arith, l)), λ i. (refl, refl), (refl, refl, refl)),
  (refl, λ i l. ground (arith, l), refl, (refl, refl), λ i. refl, (refl, refl)),
)

-- Whatever the registers hold: where the controller is always ready in time, `init()` ends, all
-- interrupts of the card, of the DMA and of SDIO are masked, the clock runs with the divisor 4, the controller and both DMA channels are
-- out of reset, the mode for HS400 is off, and the bus to the host has 64 bits.
pub init-Running :
    (ready : ℕ → Bool) (h : Hw)
    → ((n : ℕ) → ready n ≡ true)
    → let (h', r) = run_ops ready init h in (r ≡ done tt) × Masked h' × Running h'
init-Running ready h k =
    subst (λ p. let (h', r) = p in (r ≡ done tt) × Masked h' × Running h')
      (sym (run_ops-ready ready init h k)) (refl, (after_init h).0, (after_init h).1)
