-- ===== src/Clock/Iproc.antt =====
-- The divisor that set_clock() of server/src/drv_sdhci-impl.h finds for Iproc and Bcm2711.
use emmc_driver.Base.{
  ℕ, zero, suc, ◌+◌, ◌*◌, ◌/◌, ◌%◌, ◌^◌, ◌<◌, ◌≤◌, ◌≡◌, refl, ap, false, arith, ltb, leb, ◌==◌, inl,
  inr, Bool-cases, lt→not_leb,
}
use emmc_driver.Clock.{find_div, base_div, set_clock_sdhci, clock_base_divider10}

-- The even divisor that is found is in range, slow enough if any is, and all below it are too fast.
record Found (host freq div d : ℕ) : Type 0 where
  even : d % 2 ≡ 0
  above : div ≤ d
  below : d ≤ 2046
  slow : host / 2046 ≤ freq → host / d ≤ freq
  least : (k : ℕ) → div ≤ k → k < d → k % 2 ≡ 0 → freq < host / k

here-Found :
    {host freq div : ℕ}
    → div % 2 ≡ 0
    → div ≤ 2046
    → (host / 2046 ≤ freq → host / div ≤ freq)
    → Found host freq div div
here-Found {host} {freq} {div} e l s = record {
  even = e;
  above = omega arith;
  below = l;
  slow = s;
  least = λ k a b p. absurd (omega arith);
}

later-Found :
    {host freq div d : ℕ}
    → freq < host / div
    → div % 2 ≡ 0
    → Found host freq (div + 2) d
    → Found host freq div d
later-Found {host} {freq} {div} {d} h e r = record {
  even = r.even;
  above = omega (arith, r.above);
  below = r.below;
  slow = r.slow;
  least = λ k a b p. elim (Bool-cases (k == div)) [
    | inl y ↦ ground (arith, y, h)
    | inr n ↦ r.least k (ground (arith, n, a, p, e)) b p
  ];
}

find_div-Found :
    (fuel host freq div : ℕ)
    → div % 2 ≡ 0
    → div ≤ 2046
    → 2046 ≤ div + 2 * fuel
    → Found host freq div (find_div fuel host freq div)
unfolding find_div
find_div-Found zero host freq div e l f =
    here-Found e l (λ h. ground (arith, ap (λ x. host / x) (top div l f), h))
  where
    top : (d : ℕ) → d ≤ 2046 → 2046 ≤ d + 2 * 0 → d ≡ 2046
    top d a b = omega arith
find_div-Found (suc fuel) host freq div e l f = elim (Bool-cases (ltb div 2046)) [
  | inl y ↦ elim (Bool-cases (leb (host / div) freq)) [
    | inl ok ↦ rw (y, ok) (here-Found e l (λ h. ground (arith, ok)))
    | inr fast ↦
        rw (y, fast)
          (later-Found (ground (arith, fast)) e (
            find_div-Found fuel host freq (div + 2) (omega arith) (ground (arith, y, e))
              (omega arith)))
  ]
  | inr n ↦ rw n (here-Found e l (λ h. ground (arith, ap (λ x. host / x) (top div l n), h)))
]
  where
    top : (d : ℕ) → d ≤ 2046 → ltb d 2046 ≡ false → d ≡ 2046
    top d a b = ground arith

read_back :
    (d : ℕ) → d % 2 ≡ 0 → d ≤ 2046 → ((d / 2) % 2 ^ 8 + (d / 2 / 2 ^ 8) % 2 ^ 2 * 2 ^ 8) * 2 ≡ d
read_back d e l = omega arith

-- For a frequency below the base clock, the divisor that the register reads back is at most 2046,
-- gives a clock that is not above the frequency if any divisor does, and is the least even divisor
-- that does: with each smaller one the clock is above the frequency.
pub set_clock_sdhci_lem :
    (host freq : ℕ)
    → freq < host
    → let d = clock_base_divider10 (set_clock_sdhci host freq) in
      (2 ≤ d)
      × (d ≤ 2046)
      × (host / 2046 ≤ freq → host / d ≤ freq)
      × ((k : ℕ) → 2 ≤ k → k < d → k % 2 ≡ 0 → freq < host / k)
unfolding clock_base_divider10 set_clock_sdhci base_div
set_clock_sdhci_lem host freq h =
    let r = find_div-Found 1022 host freq 2 refl (omega arith) (omega arith) in
    rw (lt→not_leb freq host h, read_back (find_div 1022 host freq 2) r.even r.below)
      (r.above, r.below, r.slow, r.least)

-- For the base clock and above, the register's divisor is 0, which lets the base clock through.
pub set_clock_sdhci_base :
    (host freq : ℕ) → host ≤ freq → clock_base_divider10 (set_clock_sdhci host freq) ≡ 0
unfolding clock_base_divider10 set_clock_sdhci base_div
set_clock_sdhci_base host freq h = ground arith
