-- ===== src/Session/Ocr.antt =====
-- adapt_ocr() of server/src/device-impl.h: the voltage window that ACMD41 asks for.
use emmc_driver.Base.{zero, suc, ◌*◌, ◌+◌, ◌/◌, ◌%◌, ◌==◌, ℕ, ◌≤◌, ◌<◌, ◌^◌, ◌≡◌, ◌&&◌, arith}
use emmc_driver.Mmc.{test_bit}
use emmc_driver.Session.Switch.{adapt_ocr, common_bit}

common_bit-bound : (dev drv k : ℕ) → common_bit dev drv k ≤ 1
common_bit-bound dev drv k = ground arith

-- a common bit, read back
common_bit_lem : (dev drv k : ℕ) → (common_bit dev drv k == 1) ≡ (test_bit dev k && test_bit drv k)
common_bit_lem dev drv k = ground arith

-- a digit of a number of nine digits above bit 15, with bit 30
module _ (a b c d e f g h i : ℕ) (wa : a ≤ 1) (wb : b ≤ 1) (wc : c ≤ 1) (wd : d ≤ 1) (we : e ≤ 1)
    (wf : f ≤ 1) (wg : g ≤ 1) (wh : h ≤ 1) (wi : i ≤ 1) where
  abbrev window : ℕ
  window =
      a * 2 ^ 23
      + b * 2 ^ 22
      + c * 2 ^ 21
      + d * 2 ^ 20
      + e * 2 ^ 19
      + f * 2 ^ 18
      + g * 2 ^ 17
      + h * 2 ^ 16
      + i * 2 ^ 15
      + 2 ^ 30

  window23 : window / 2 ^ 23 % 2 ≡ a
  window23 = omega (arith, wa, wb, wc, wd, we, wf, wg, wh, wi)

  window22 : window / 2 ^ 22 % 2 ≡ b
  window22 = omega (arith, wa, wb, wc, wd, we, wf, wg, wh, wi)

  window21 : window / 2 ^ 21 % 2 ≡ c
  window21 = omega (arith, wa, wb, wc, wd, we, wf, wg, wh, wi)

  window20 : window / 2 ^ 20 % 2 ≡ d
  window20 = omega (arith, wa, wb, wc, wd, we, wf, wg, wh, wi)

  window19 : window / 2 ^ 19 % 2 ≡ e
  window19 = omega (arith, wa, wb, wc, wd, we, wf, wg, wh, wi)

  window18 : window / 2 ^ 18 % 2 ≡ f
  window18 = omega (arith, wa, wb, wc, wd, we, wf, wg, wh, wi)

  window17 : window / 2 ^ 17 % 2 ≡ g
  window17 = omega (arith, wa, wb, wc, wd, we, wf, wg, wh, wi)

  window16 : window / 2 ^ 16 % 2 ≡ h
  window16 = omega (arith, wa, wb, wc, wd, we, wf, wg, wh, wi)

  window15 : window / 2 ^ 15 % 2 ≡ i
  window15 = omega (arith, wa, wb, wc, wd, we, wf, wg, wh, wi)

-- a digit of the window, read
abbrev Digit : ℕ → ℕ → ℕ → Type 0
Digit dev drv k = adapt_ocr dev drv / 2 ^ k % 2 ≡ common_bit dev drv k

read :
    (dev drv k : ℕ)
    → Digit dev drv k
    → test_bit (adapt_ocr dev drv) k ≡ (test_bit dev k && test_bit drv k)
read dev drv k h = rw (h) (common_bit_lem dev drv k)

module _ (dev drv : ℕ) where
  digit15 : Digit dev drv 15
  unfolding adapt_ocr
  digit15 =
      window15 (common_bit dev drv 23) (common_bit dev drv 22) (common_bit dev drv 21)
        (common_bit dev drv 20) (common_bit dev drv 19) (common_bit dev drv 18)
        (common_bit dev drv 17) (common_bit dev drv 16) (common_bit dev drv 15)
        (common_bit-bound dev drv 23) (common_bit-bound dev drv 22) (common_bit-bound dev drv 21)
        (common_bit-bound dev drv 20) (common_bit-bound dev drv 19) (common_bit-bound dev drv 18)
        (common_bit-bound dev drv 17) (common_bit-bound dev drv 16) (common_bit-bound dev drv 15)

  digit16 : Digit dev drv 16
  unfolding adapt_ocr
  digit16 =
      window16 (common_bit dev drv 23) (common_bit dev drv 22) (common_bit dev drv 21)
        (common_bit dev drv 20) (common_bit dev drv 19) (common_bit dev drv 18)
        (common_bit dev drv 17) (common_bit dev drv 16) (common_bit dev drv 15)
        (common_bit-bound dev drv 23) (common_bit-bound dev drv 22) (common_bit-bound dev drv 21)
        (common_bit-bound dev drv 20) (common_bit-bound dev drv 19) (common_bit-bound dev drv 18)
        (common_bit-bound dev drv 17) (common_bit-bound dev drv 16) (common_bit-bound dev drv 15)

  digit17 : Digit dev drv 17
  unfolding adapt_ocr
  digit17 =
      window17 (common_bit dev drv 23) (common_bit dev drv 22) (common_bit dev drv 21)
        (common_bit dev drv 20) (common_bit dev drv 19) (common_bit dev drv 18)
        (common_bit dev drv 17) (common_bit dev drv 16) (common_bit dev drv 15)
        (common_bit-bound dev drv 23) (common_bit-bound dev drv 22) (common_bit-bound dev drv 21)
        (common_bit-bound dev drv 20) (common_bit-bound dev drv 19) (common_bit-bound dev drv 18)
        (common_bit-bound dev drv 17) (common_bit-bound dev drv 16) (common_bit-bound dev drv 15)

  digit18 : Digit dev drv 18
  unfolding adapt_ocr
  digit18 =
      window18 (common_bit dev drv 23) (common_bit dev drv 22) (common_bit dev drv 21)
        (common_bit dev drv 20) (common_bit dev drv 19) (common_bit dev drv 18)
        (common_bit dev drv 17) (common_bit dev drv 16) (common_bit dev drv 15)
        (common_bit-bound dev drv 23) (common_bit-bound dev drv 22) (common_bit-bound dev drv 21)
        (common_bit-bound dev drv 20) (common_bit-bound dev drv 19) (common_bit-bound dev drv 18)
        (common_bit-bound dev drv 17) (common_bit-bound dev drv 16) (common_bit-bound dev drv 15)

  digit19 : Digit dev drv 19
  unfolding adapt_ocr
  digit19 =
      window19 (common_bit dev drv 23) (common_bit dev drv 22) (common_bit dev drv 21)
        (common_bit dev drv 20) (common_bit dev drv 19) (common_bit dev drv 18)
        (common_bit dev drv 17) (common_bit dev drv 16) (common_bit dev drv 15)
        (common_bit-bound dev drv 23) (common_bit-bound dev drv 22) (common_bit-bound dev drv 21)
        (common_bit-bound dev drv 20) (common_bit-bound dev drv 19) (common_bit-bound dev drv 18)
        (common_bit-bound dev drv 17) (common_bit-bound dev drv 16) (common_bit-bound dev drv 15)

  digit20 : Digit dev drv 20
  unfolding adapt_ocr
  digit20 =
      window20 (common_bit dev drv 23) (common_bit dev drv 22) (common_bit dev drv 21)
        (common_bit dev drv 20) (common_bit dev drv 19) (common_bit dev drv 18)
        (common_bit dev drv 17) (common_bit dev drv 16) (common_bit dev drv 15)
        (common_bit-bound dev drv 23) (common_bit-bound dev drv 22) (common_bit-bound dev drv 21)
        (common_bit-bound dev drv 20) (common_bit-bound dev drv 19) (common_bit-bound dev drv 18)
        (common_bit-bound dev drv 17) (common_bit-bound dev drv 16) (common_bit-bound dev drv 15)

  digit21 : Digit dev drv 21
  unfolding adapt_ocr
  digit21 =
      window21 (common_bit dev drv 23) (common_bit dev drv 22) (common_bit dev drv 21)
        (common_bit dev drv 20) (common_bit dev drv 19) (common_bit dev drv 18)
        (common_bit dev drv 17) (common_bit dev drv 16) (common_bit dev drv 15)
        (common_bit-bound dev drv 23) (common_bit-bound dev drv 22) (common_bit-bound dev drv 21)
        (common_bit-bound dev drv 20) (common_bit-bound dev drv 19) (common_bit-bound dev drv 18)
        (common_bit-bound dev drv 17) (common_bit-bound dev drv 16) (common_bit-bound dev drv 15)

  digit22 : Digit dev drv 22
  unfolding adapt_ocr
  digit22 =
      window22 (common_bit dev drv 23) (common_bit dev drv 22) (common_bit dev drv 21)
        (common_bit dev drv 20) (common_bit dev drv 19) (common_bit dev drv 18)
        (common_bit dev drv 17) (common_bit dev drv 16) (common_bit dev drv 15)
        (common_bit-bound dev drv 23) (common_bit-bound dev drv 22) (common_bit-bound dev drv 21)
        (common_bit-bound dev drv 20) (common_bit-bound dev drv 19) (common_bit-bound dev drv 18)
        (common_bit-bound dev drv 17) (common_bit-bound dev drv 16) (common_bit-bound dev drv 15)

  digit23 : Digit dev drv 23
  unfolding adapt_ocr
  digit23 =
      window23 (common_bit dev drv 23) (common_bit dev drv 22) (common_bit dev drv 21)
        (common_bit dev drv 20) (common_bit dev drv 19) (common_bit dev drv 18)
        (common_bit dev drv 17) (common_bit dev drv 16) (common_bit dev drv 15)
        (common_bit-bound dev drv 23) (common_bit-bound dev drv 22) (common_bit-bound dev drv 21)
        (common_bit-bound dev drv 20) (common_bit-bound dev drv 19) (common_bit-bound dev drv 18)
        (common_bit-bound dev drv 17) (common_bit-bound dev drv 16) (common_bit-bound dev drv 15)

-- `adapt_ocr()` asks for just the voltages that the card and the controller both have: bit by bit,
-- for the nine bits of the voltage window from bit 15.
pub adapt_ocr_lem :
    (dev drv j : ℕ)
    → j < 9
    → test_bit (adapt_ocr dev drv) (15 + j) ≡ (test_bit dev (15 + j) && test_bit drv (15 + j))
adapt_ocr_lem dev drv zero h = read dev drv 15 (digit15 dev drv)
adapt_ocr_lem dev drv (suc zero) h = read dev drv 16 (digit16 dev drv)
adapt_ocr_lem dev drv (suc (suc zero)) h = read dev drv 17 (digit17 dev drv)
adapt_ocr_lem dev drv (suc (suc (suc zero))) h = read dev drv 18 (digit18 dev drv)
adapt_ocr_lem dev drv (suc (suc (suc (suc zero)))) h = read dev drv 19 (digit19 dev drv)
adapt_ocr_lem dev drv (suc (suc (suc (suc (suc zero))))) h = read dev drv 20 (digit20 dev drv)
adapt_ocr_lem dev drv (suc (suc (suc (suc (suc (suc zero)))))) h = read dev drv 21 (digit21 dev drv)
adapt_ocr_lem dev drv (suc (suc (suc (suc (suc (suc (suc zero))))))) h =
    read dev drv 22 (digit22 dev drv)
adapt_ocr_lem dev drv (suc (suc (suc (suc (suc (suc (suc (suc zero)))))))) h =
    read dev drv 23 (digit23 dev drv)
adapt_ocr_lem dev drv (suc (suc (suc (suc (suc (suc (suc (suc (suc n))))))))) h =
    absurd (omega (arith, h))
