-- ===== src/Sdhi/Stopped.antt =====
-- The clock of the SDHI controller while it is changed: set_clock_and_timing() of
-- server/src/drv_sdhi.cc.
use mathlib.Core.Path.{subst}
use emmc_driver.Base.{
  ℕ, ◌<◌, ◌≡◌, refl, sym, ◌≢◌, ◌⊎◌, inl, inr, Bool, true, false, not, List, [], ◌∷◌, ◌++◌, done,
  ◌==◌, arith, if◌then◌else◌, Bool-cases,
}
use emmc_driver.Reg.{Word, word, write_field}
use emmc_driver.Reg.Ops.{Change, Hw, run_ops, after_ops, run_ops-ready, run_ops-Keep}
use emmc_driver.Sdhi.{set_clock}
use emmc_driver.Sdhi.Setup.{
  sd_clk_ctrl, offset, set_clk_ctrl, clock_disable, clock_enable, set_clock_div,
  set_clock_and_timing,
}

-- `sclken` of Reg_sd_clk_ctrl
abbrev pub runs : Word → Bool
runs w = w 8

-- the bits of `div` of Reg_sd_clk_ctrl
abbrev pub SameDiv : Word → Word → Type 0
SameDiv v w = (i : ℕ) → i < 8 → v i ≡ w i

-- A write of the clock's register keeps the divisor, or is made while the clock is stopped, and
-- leaves it stopped.
abbrev pub SafeChange : Change → Type 0
SafeChange c =
    (c.offs ≢ offset sd_clk_ctrl)
    ⊎ (SameDiv c.old c.new ⊎ ((runs c.old ≡ false) × (runs c.new ≡ false)))

abbrev pub SafeLog : List Change → Type 0
SafeLog [] = Unit
SafeLog (c ∷ cs) = SafeChange c × SafeLog cs

switched-SafeChange :
    (n : ℕ) (w : Word)
    → SafeChange (record { offs = offset sd_clk_ctrl; old = w; new = set_clk_ctrl "sclken" n w })
unfolding write_field
switched-SafeChange n w = inr (inl (λ i l. ground (arith, l)))

divided-SafeChange :
    (n : ℕ) (w : Word)
    → runs w ≡ false
    → SafeChange (record { offs = offset sd_clk_ctrl; old = w; new = set_clk_ctrl "div" n w })
unfolding write_field
divided-SafeChange n w stopped = inr (inr (stopped, stopped))

stopped_lem : (w : Word) → runs (set_clk_ctrl "sclken" 0 w) ≡ false
unfolding write_field
stopped_lem w = refl

-- Whatever the frequency and whenever the controller is not ready in time, the divisor of the clock
-- is only changed while the clock is stopped, where this was so before.
pub set_clock_and_timing-SafeLog :
    (ready : ℕ → Bool) (freq : ℕ) (h : Hw)
    → SafeLog h.log
    → SafeLog (run_ops ready (set_clock_and_timing freq) h).0.log
unfolding set_clock_and_timing clock_disable set_clock_div clock_enable
set_clock_and_timing-SafeLog ready freq h s = elim (Bool-cases (freq == 0)) [
  | inl off ↦ rw off (run_ops-Keep (λ h. SafeLog h.log) ready clock_disable h s ((stop, s), tt))
  | inr on ↦ rw on (
      run_ops-Keep (λ h. SafeLog h.log) ready
        (clock_disable ++ (set_clock_div freq ++ clock_enable)) h s
        ((stop, s), ((divide, (stop, s)), ((start, (divide, (stop, s))), tt))))
]
  where
    w : Word
    w = set_clk_ctrl "sclken" 0 (h.regs (offset sd_clk_ctrl))

    stop :
        SafeChange
          (record { offs = offset sd_clk_ctrl; old = h.regs (offset sd_clk_ctrl); new = w })
    stop = switched-SafeChange 0 (h.regs (offset sd_clk_ctrl))

    divide :
        SafeChange (record {
          offs = offset sd_clk_ctrl;
          old = w;
          new = set_clk_ctrl "div" (set_clock freq) w;
        })
    divide = divided-SafeChange (set_clock freq) w (stopped_lem (h.regs (offset sd_clk_ctrl)))

    start : SafeChange (record {
      offs = offset sd_clk_ctrl;
      old = set_clk_ctrl "div" (set_clock freq) w;
      new = set_clk_ctrl "sclken" 1 (set_clk_ctrl "div" (set_clock freq) w);
    })
    start = switched-SafeChange 1 (set_clk_ctrl "div" (set_clock freq) w)

-- Where the controller is always ready in time, `set_clock_and_timing()` ends, and it leaves the
-- clock stopped for the frequency 0, and otherwise running with the divisor that `set_clock()` finds;
-- the other bits of the register, and the other registers, are as before.
pub set_clock_and_timing-Runs :
    (ready : ℕ → Bool) (freq : ℕ) (h : Hw)
    → ((n : ℕ) → ready n ≡ true)
    → let (h', r) = run_ops ready (set_clock_and_timing freq) h in
      (r ≡ done tt)
      × (runs (h'.regs (offset sd_clk_ctrl)) ≡ not (freq == 0))
      × ((i : ℕ) → 8 < i → h'.regs (offset sd_clk_ctrl) i ≡ h.regs (offset sd_clk_ctrl) i)
      × ((i : ℕ)
          → i < 8
          → h'.regs (offset sd_clk_ctrl) i
            ≡ (if freq == 0 then h.regs (offset sd_clk_ctrl) i else word (set_clock freq) i))
      × ((a : ℕ) → a ≢ offset sd_clk_ctrl → h'.regs a ≡ h.regs a)
unfolding set_clock_and_timing clock_disable set_clock_div clock_enable after_ops write_field
set_clock_and_timing-Runs ready freq h k =
    subst
      (λ p.
        let (h', r) = p in
        (r ≡ done tt)
        × (runs (h'.regs (offset sd_clk_ctrl)) ≡ not (freq == 0))
        × ((i : ℕ) → 8 < i → h'.regs (offset sd_clk_ctrl) i ≡ h.regs (offset sd_clk_ctrl) i)
        × ((i : ℕ)
            → i < 8
            → h'.regs (offset sd_clk_ctrl) i
              ≡ (if freq == 0 then h.regs (offset sd_clk_ctrl) i else word (set_clock freq) i))
        × ((a : ℕ) → a ≢ offset sd_clk_ctrl → h'.regs a ≡ h.regs a))
      (sym (run_ops-ready ready (set_clock_and_timing freq) h k))
      (elim (Bool-cases (freq == 0)) [
        | inl off ↦ rw off (
          refl,
          refl,
          λ i l. ground (arith, l),
          λ i l. ground (arith, l),
          λ a n. ground (arith, n),
        )
        | inr on ↦ rw on (
          refl,
          refl,
          λ i l. ground (arith, l),
          λ i l. ground (arith, l),
          λ a n. ground (arith, n),
        )
      ])
