-- ===== src/Sdhci/Response.antt =====
-- What Sdhci::handle_irq() of server/src/drv_sdhci-impl.h makes of the end of a command, of its
-- response, and of a transfer that stopped at a buffer boundary.
use mathlib.Core.Path.{subst}
use emmc_driver.Base.{
  ℕ, ◌+◌, ◌-◌, ◌*◌, ◌%◌, ◌^◌, ◌≤◌, ◌<◌, ◌≡◌, refl, sym, ap, ◌∙◌, ◌⊎◌, Bool, true, false, not, ◌&&◌,
  ◌||◌, done, arith,
}
use emmc_driver.Mmc.{test_bit}
use emmc_driver.Cmd.{Cmd, success, progress_cmd, progress_data, is_error}
use emmc_driver.Sdhci.{
  SdhciType, Regs, IntStatus, handle_irq_cmd, handle_irq_data, handle_irq, fetch_response,
  is_tuning, has_cmd_error, has_data_error, restarted,
}

-- An interrupt that reports the end of a command and of its transfer at once, and no error, ends the
-- command in one go; so does the end of a command alone if it has no data.
pub handle_irq_completes :
    (type : SdhciType) (regs : Regs) (adma2 : Bool) (is : IntStatus) (c : Cmd)
    → c.status ≡ progress_cmd
    → is_tuning c ≡ false
    → (is.ctoe || has_cmd_error is) || (is.ac12e || has_data_error is) ≡ false
    → is.cc && (is.tc || not c.flags.has_data) ≡ true
    → let (c', ws, r) = handle_irq type regs adma2 is c in (c'.status ≡ success) × (r ≡ done tt)
unfolding handle_irq handle_irq_cmd handle_irq_data fetch_response
handle_irq_completes type regs adma2 is c s t e d = ground (arith, s, t, e, d)

-- An error of the current phase is never taken for success: the command fails.
pub handle_irq_fails :
    (type : SdhciType) (regs : Regs) (adma2 : Bool) (is : IntStatus) (c : Cmd)
    → ((c.status ≡ progress_cmd) × (is.ctoe || (has_cmd_error is || is.ac12e) ≡ true))
      ⊎ ((c.status ≡ progress_data) × (has_data_error is ≡ true))
    → is_error (handle_irq type regs adma2 is c).0.status ≡ true
unfolding handle_irq handle_irq_cmd handle_irq_data fetch_response
handle_irq_fails type regs adma2 is c h = ground (arith, h)

-- The four words of a 136-bit response are the 128-bit register shifted by 8 bits.
pub fetch_response_lem :
    (regs : Regs) (c : Cmd)
    → test_bit c.cmd 10 ≡ true
    → regs.rsp0 < 2 ^ 32
    → regs.rsp1 < 2 ^ 32
    → regs.rsp2 < 2 ^ 32
    → regs.rsp3 < 2 ^ 32
    → let r = fetch_response regs c in
      r.resp0 * 2 ^ 96 + r.resp1 * 2 ^ 64 + r.resp2 * 2 ^ 32 + r.resp3
      ≡ ((regs.rsp3 * 2 ^ 96 + regs.rsp2 * 2 ^ 64 + regs.rsp1 * 2 ^ 32 + regs.rsp0) * 2 ^ 8)
        % 2 ^ 128
unfolding fetch_response
fetch_response_lem regs c t a b d e = ground (arith, t, a, b, d, e)

xferred_lem : (n left : ℕ) → left ≤ n → n < 2 ^ 32 → (n + (2 ^ 32 - left)) % 2 ^ 32 ≡ n - left
xferred_lem n left l b = omega arith

rest_lem :
    (d s x left : ℕ)
    → d + (x + left) * s < 2 ^ 32
    → (d + x * s) % 2 ^ 32 + left * s ≡ d + (x + left) * s
rest_lem d s x left h = grind (arith, h)

restarted_lem :
    (c : Cmd) (left : ℕ)
    → left ≤ c.blockcnt
    → c.blockcnt < 2 ^ 32
    → c.data_phys + c.blockcnt * c.blocksize < 2 ^ 32
    → let c' = restarted c left in
      (c'.blockcnt ≡ left)
      × (c'.data_phys + c'.blockcnt * c'.blocksize ≡ c.data_phys + c.blockcnt * c.blocksize)
restarted_lem c left l b a =
    rw (xferred_lem c.blockcnt left l b, back)
      (
        refl,
        rest_lem c.data_phys c.blocksize (c.blockcnt - left) left
              (subst (λ n. c.data_phys + n * c.blocksize < 2 ^ 32) (sym whole) a)
            ∙ ap (λ n. c.data_phys + n * c.blocksize) whole,
      )
  where
    back : (c.blockcnt + (2 ^ 32 - (c.blockcnt - left))) % 2 ^ 32 ≡ left
    back = omega (arith, l, b)

    whole : c.blockcnt - left + left ≡ c.blockcnt
    whole = omega (arith, l)

-- When SDMA stops at a buffer boundary with some blocks to go, and neither an error nor the end of
-- the transfer is reported, the command goes on with these blocks, from where the transfer
-- stopped: its memory ends at the same address as before.
pub handle_irq_data_restarts :
    (regs : Regs) (is : IntStatus) (c : Cmd)
    → has_data_error is || is.tc ≡ false
    → is.dint ≡ true
    → is_error c.status ≡ false
    → 0 < regs.blkcnt
    → regs.blkcnt ≤ c.blockcnt
    → c.blockcnt < 2 ^ 32
    → c.data_phys + c.blockcnt * c.blocksize < 2 ^ 32
    → let (c', ws, r) = handle_irq_data regs false is c in
      (r ≡ done tt)
      × (c'.status ≡ c.status)
      × (c'.blockcnt ≡ regs.blkcnt)
      × (c'.data_phys + c'.blockcnt * c'.blocksize ≡ c.data_phys + c.blockcnt * c.blocksize)
unfolding handle_irq_data
handle_irq_data_restarts regs is c e d s p l b a =
    ground (arith, e, d, s, p, restarted_lem c regs.blkcnt l b a)
