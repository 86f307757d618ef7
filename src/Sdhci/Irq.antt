-- ===== src/Sdhci/Irq.antt =====
-- Sdhci::handle_irq() of server/src/drv_sdhci-impl.h: what it acknowledges, and the states that it
-- leaves a command in.
use emmc_driver.Base.{
  ◌≡◌, refl, ap, ◌∙◌, ◌⊎◌, inl, inr, Bool, true, false, not, ◌&&◌, ◌||◌, List, [], ◌∷◌, ◌++◌, done,
  throws, arith, if◌then◌else◌, Bool-cases,
}
use emmc_driver.Cmd.{Cmd, Status, success, progress_cmd, progress_data, is_error}
use emmc_driver.Sdhci.{
  SdhciType, Regs, IntStatus, Write, ack, Handled, handle_irq_cmd, handle_irq_data, handle_irq,
  fetch_response, is_tuning, in_cmd_phase, in_data_phase, after_cmd, respond, is_done_with,
}

-- A set bit is an implication, from what is acknowledged to what was read.
abbrev pub implies : Bool → Bool → Bool
implies a b = not a || b

abbrev pub within : IntStatus → IntStatus → Bool
within a is =
    implies a.dmae is.dmae
    && (implies a.admae is.admae
        && (implies a.ac12e is.ac12e
            && (implies a.debe is.debe
                && (implies a.dce is.dce
                    && (implies a.dtoe is.dtoe
                        && (implies a.cie is.cie
                            && (implies a.cebe is.cebe
                                && (implies a.cce is.cce
                                    && (implies a.ctoe is.ctoe
                                        && (implies a.brr is.brr
                                            && (implies a.bwr is.bwr
                                                && (implies a.dint is.dint
                                                    && (implies a.tc is.tc
                                                        && implies a.cc is.cc)))))))))))))

-- The states that a command can have behind an interrupt.
abbrev pub reached : Status → Bool
reached progress_cmd = true
reached progress_data = true
reached success = true
reached s = is_error s

fetch_response-status : (regs : Regs) (c : Cmd) → (fetch_response regs c).status ≡ c.status
unfolding fetch_response
fetch_response-status regs c = ground arith

cmd-reached :
    (type : SdhciType) (regs : Regs) (is : IntStatus) (c : Cmd)
    → is_tuning c ≡ false
    → reached c.status ≡ true
    → reached (handle_irq_cmd type regs is c).0.status ≡ true
unfolding handle_irq_cmd
cmd-reached type regs is c t h = ground (arith, t, h)

data-reached :
    (regs : Regs) (adma2 : Bool) (is : IntStatus) (c : Cmd)
    → reached c.status ≡ true
    → reached (handle_irq_data regs adma2 is c).0.status ≡ true
unfolding handle_irq_data
data-reached regs adma2 is c h = ground (arith, h)

after_cmd-reached :
    (regs : Regs) (adma2 : Bool) (is : IntStatus) (h : Handled)
    → reached h.0.status ≡ true
    → reached (after_cmd regs adma2 is h).0.status ≡ true
after_cmd-reached regs adma2 is (c, ws, throws e) h = h
after_cmd-reached regs adma2 is (c, ws, done u) h = elim (Bool-cases (in_data_phase c)) [
  | inl y ↦ rw y (data-reached regs adma2 is c h)
  | inr n ↦ rw n h
]

respond-reached :
    (regs : Regs) (h : Handled)
    → reached h.0.status ≡ true
    → reached (respond regs h).0.status ≡ true
respond-reached regs (c, ws, throws e) h = h
respond-reached regs (c, ws, done u) h = elim (Bool-cases (is_done_with c)) [
  | inl y ↦ rw y (ap reached (fetch_response-status regs c) ∙ h)
  | inr n ↦ rw n h
]

-- A command that is no tuning command and that is in progress, successful or failed is so too when
-- `handle_irq()` has handled an interrupt, whatever the registers hold and also where it throws.
pub handle_irq-reached :
    (type : SdhciType) (regs : Regs) (adma2 : Bool) (is : IntStatus) (c : Cmd)
    → is_tuning c ≡ false
    → reached c.status ≡ true
    → reached (handle_irq type regs adma2 is c).0.status ≡ true
unfolding handle_irq
handle_irq-reached type regs adma2 is c t h =
    respond-reached regs (after_cmd regs adma2 is h₀)
      (after_cmd-reached regs adma2 is h₀ (start (Bool-cases (in_cmd_phase c))))
  where
    h₀ : Handled
    h₀ = if in_cmd_phase c then handle_irq_cmd type regs is c else (c, [], done tt)

    start : (in_cmd_phase c ≡ true) ⊎ (in_cmd_phase c ≡ false) → reached h₀.0.status ≡ true
    start (inl y) = rw y (cmd-reached type regs is c t h)
    start (inr n) = rw n h

abbrev pub ack_within : IntStatus → Write → Bool
ack_within is (ack a) = within a is
ack_within is w = true

abbrev pub acks_within : IntStatus → List Write → Bool
acks_within is [] = true
acks_within is (w ∷ ws) = ack_within is w && acks_within is ws

cmd-acks_within :
    (type : SdhciType) (regs : Regs) (is : IntStatus) (c : Cmd)
    → acks_within is (handle_irq_cmd type regs is c).1 ≡ true
unfolding handle_irq_cmd
cmd-acks_within type regs is c = ground arith

data-acks_within :
    (regs : Regs) (adma2 : Bool) (is : IntStatus) (c : Cmd)
    → acks_within is (handle_irq_data regs adma2 is c).1 ≡ true
unfolding handle_irq_data
data-acks_within regs adma2 is c = ground arith

acks_within-append :
    (is : IntStatus) (xs ys : List Write)
    → acks_within is xs ≡ true
    → acks_within is ys ≡ true
    → acks_within is (xs ++ ys) ≡ true
acks_within-append is [] ys h k = k
acks_within-append is (x ∷ xs) ys h k = ground (arith, h, acks_within-append is xs ys, k)

after_cmd-acks_within :
    (regs : Regs) (adma2 : Bool) (is : IntStatus) (h : Handled)
    → acks_within is h.1 ≡ true
    → acks_within is (after_cmd regs adma2 is h).1 ≡ true
after_cmd-acks_within regs adma2 is (c, ws, throws e) h = h
after_cmd-acks_within regs adma2 is (c, ws, done u) h = elim (Bool-cases (in_data_phase c)) [
  | inl y ↦ rw y (
      acks_within-append is ws (handle_irq_data regs adma2 is c).1 h
        (data-acks_within regs adma2 is c))
  | inr n ↦ rw n h
]

respond-acks_within :
    (regs : Regs) (is : IntStatus) (h : Handled)
    → acks_within is h.1 ≡ true
    → acks_within is (respond regs h).1 ≡ true
respond-acks_within regs is (c, ws, throws e) h = h
respond-acks_within regs is (c, ws, done u) h = h

-- Every write of `handle_irq()` to the interrupt status acknowledges only interrupts that it had
-- read there: none that comes in the meantime is lost.
pub handle_irq-acks :
    (type : SdhciType) (regs : Regs) (adma2 : Bool) (is : IntStatus) (c : Cmd)
    → acks_within is (handle_irq type regs adma2 is c).1 ≡ true
unfolding handle_irq
handle_irq-acks type regs adma2 is c =
    respond-acks_within regs is (after_cmd regs adma2 is h₀)
      (after_cmd-acks_within regs adma2 is h₀ (acks (Bool-cases (in_cmd_phase c))))
  where
    h₀ : Handled
    h₀ = if in_cmd_phase c then handle_irq_cmd type regs is c else (c, [], done tt)

    acks : (in_cmd_phase c ≡ true) ⊎ (in_cmd_phase c ≡ false) → acks_within is h₀.1 ≡ true
    acks (inl y) = rw y (cmd-acks_within type regs is c)
    acks (inr n) = rw n refl
