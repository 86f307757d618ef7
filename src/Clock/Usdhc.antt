-- ===== src/Clock/Usdhc.antt =====
-- The divisors that set_clock() of server/src/drv_sdhci-impl.h finds for uSDHC.
use mathlib.Core.Path.{subst}
use emmc_driver.Base.{
  ℕ, zero, suc, ◌+◌, ◌-◌, ◌*◌, ◌/◌, ◌%◌, ◌^◌, ◌≤◌, ◌≡◌, refl, Bool, ◌&&◌, ◌⊎◌, arith, ltb,
  if◌then◌else◌, inl, inr, Bool-cases,
}
use emmc_driver.Clock.{
  SysCtrl, find_pre_div, find_dvs, ddr_pre_div, set_clock_usdhc, clock_divider_sdr,
  clock_divider_ddr,
}

-- a power of two up to 256
abbrev PreDiv : ℕ → Type 0
PreDiv p =
    (p ≡ 1) ⊎ (p ≡ 2) ⊎ (p ≡ 4) ⊎ (p ≡ 8) ⊎ (p ≡ 16) ⊎ (p ≡ 32) ⊎ (p ≡ 64) ⊎ (p ≡ 128) ⊎ (p ≡ 256)

find_pre_div-PreDiv :
    (fuel host freq ddr p : ℕ) → PreDiv p → PreDiv (find_pre_div fuel host freq ddr p)
unfolding find_pre_div
find_pre_div-PreDiv zero host freq ddr p h = h
find_pre_div-PreDiv (suc fuel) host freq ddr p h =
    elim (Bool-cases (ltb freq (host / (16 * p * ddr)) && ltb p 256)) [
      | inl y ↦ rw y (find_pre_div-PreDiv fuel host freq ddr (p * 2) (ground (arith, h, y)))
      | inr n ↦ rw n h
    ]

-- Either the range of the divisor is enough or the largest is taken.
find_pre_div_ends :
    (fuel host freq ddr p : ℕ)
    → 256 ≤ p * 2 ^ fuel
    → PreDiv p
    → let q = find_pre_div fuel host freq ddr p in (host / (16 * q * ddr) ≤ freq) ⊎ (q ≡ 256)
unfolding find_pre_div
find_pre_div_ends zero host freq ddr p l h = inr (ground (arith, l, h))
find_pre_div_ends (suc fuel) host freq ddr p l h =
    elim (Bool-cases (ltb freq (host / (16 * p * ddr)) && ltb p 256)) [
      | inl y ↦
          rw y
            (find_pre_div_ends fuel host freq ddr (p * 2) (grind (arith, l)) (ground (arith, h, y)))
      | inr n ↦ rw n (ground (arith, h, n))
    ]

find_dvs_range :
    (fuel host freq factor div : ℕ)
    → 1 ≤ div
    → div ≤ 16
    → 16 ≤ div + fuel
    → let d = find_dvs fuel host freq factor div in
      (1 ≤ d) × (d ≤ 16) × ((host / (d * factor) ≤ freq) ⊎ (d ≡ 16))
unfolding find_dvs
find_dvs_range zero host freq factor div a b c = ground (arith, a, b, c)
find_dvs_range (suc fuel) host freq factor div a b c =
    ground (arith, a, b, c, find_dvs_range fuel host freq factor (div + 1))

-- the divisor that the two fields stand for
divider-eq :
    (p v : ℕ) (ddr_active : Bool)
    → PreDiv p
    → 1 ≤ v
    → v ≤ 16
    → let sc : SysCtrl = record {
      clk_freq8 = 0;
      clk_freq_ms2 = 0;
      sdclkfs = (p / 2) % 2 ^ 8;
      dvs = (v - 1) % 2 ^ 4;
    } in
      (if ddr_active then clock_divider_ddr sc else clock_divider_sdr sc)
      ≡ v * (p * ddr_pre_div ddr_active)
unfolding clock_divider_ddr clock_divider_sdr
divider-eq p v ddr_active h a b = ground (arith, h, a, b)

same_quotient : (host freq : ℕ) {a b : ℕ} → a ≡ b → host / a ≤ freq → host / b ≤ freq
same_quotient host freq e h = subst (λ x. host / x ≤ freq) e h

slow_enough :
    (host freq p v ddr : ℕ)
    → (host / (16 * p * ddr) ≤ freq) ⊎ (p ≡ 256)
    → (host / (v * (p * ddr)) ≤ freq) ⊎ (v ≡ 16)
    → host / (4096 * ddr) ≤ freq
    → host / (v * (p * ddr)) ≤ freq
slow_enough host freq p v ddr h (inl k) m = k
slow_enough host freq p v ddr (inl h) (inr k) m = same_quotient host freq (rw k (grind arith)) h
slow_enough host freq p v ddr (inr h) (inr k) m =
    same_quotient host freq (rw (k, h) (grind arith)) m

at_most :
    (p v : ℕ) (ddr_active : Bool)
    → PreDiv p
    → v ≤ 16
    → v * (p * ddr_pre_div ddr_active) ≤ 4096 * ddr_pre_div ddr_active
at_most p v ddr_active h b = ground (arith, h, b)

-- The divisor that the register reads back for uSDHC, with double data rate or without, is at most
-- 4096, or 8192 with it, and gives a clock that is not above the frequency if the largest does.
pub set_clock_usdhc_lem :
    (host freq : ℕ) (ddr_active : Bool)
    → let sc = set_clock_usdhc host freq ddr_active in
      let d = if ddr_active then clock_divider_ddr sc else clock_divider_sdr sc in
      let most = 4096 * ddr_pre_div ddr_active in
      (d ≤ most) × (host / most ≤ freq → host / d ≤ freq)
unfolding set_clock_usdhc
set_clock_usdhc_lem host freq ddr_active =
    let ddr = ddr_pre_div ddr_active in
    let p = find_pre_div 8 host freq ddr 1 in
    let pow = find_pre_div-PreDiv 8 host freq ddr 1 (inl refl) in
    let (a, b, c) =
      find_dvs_range 15 host freq (p * ddr) 1 (omega arith) (omega arith) (omega arith) in
    rw (divider-eq p (find_dvs 15 host freq (p * ddr) 1) ddr_active pow a b) (
      at_most p (find_dvs 15 host freq (p * ddr) 1) ddr_active pow b,
      slow_enough host freq p (find_dvs 15 host freq (p * ddr) 1) ddr
          (find_pre_div_ends 8 host freq ddr 1 (omega arith) (inl refl)) c,
    )
