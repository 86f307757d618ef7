-- ===== src/Sdhci/Executed.antt =====
-- Drv::cmd_exec() of server/src/drv.h on the SDHCI controllers comes back, and with what.
use emmc_driver.Base.{
  Bool-cases, inl, inr, ◌⊎◌, ◌≡◌, refl, ap, ◌∙◌, ◌&&◌, ◌||◌, ◌++◌, Bool, true, false, not, List, [],
  ◌∷◌, some, done, is_done, arith, ◌==◌, if◌then◌else◌,
}
use emmc_driver.Cmd.{
  Cmd, Status, success, progress_cmd, progress_data, cmd_timeout, cmd_error, data_error, is_error,
}
use emmc_driver.Sdhci.{
  SdhciType, Regs, has_cmd_error, has_data_error, is_tuning, in_cmd_phase, in_data_phase,
  handle_irq_cmd, handle_irq_data, fetch_response,
}
use emmc_driver.Sdhci.Submit.{SubmitConf, MixCtrl}
use emmc_driver.Sdhci.Submit.Queue.{submitter}
use emmc_driver.Sdhci.Submit.Sent.{cmd_submit_lem}
use emmc_driver.Sdhci.Exec.{
  cmd_wait_available, Interrupt, Waited, cmd_wait_cmd_finished, cmd_wait_data_finished, Answers,
  fetch_if_present, after_data, after_wait, cmd_exec,
}

-- An interrupt of the command phase that reports nothing that ends it.
abbrev pub QuietCmd : Interrupt → Type 0
QuietCmd (regs, is) = (is.ctoe || (has_cmd_error is || is.ac12e)) || is.cc ≡ false

-- An interrupt that moves the transfer on: it reports neither an error nor the end, and no stop at a
-- boundary with ADMA2, where there are none.
abbrev pub QuietData : Bool → Interrupt → Type 0
QuietData adma2 (regs, is) =
    (has_data_error is || is.tc ≡ false) × ((is.dint && (adma2 && not (regs.blkcnt == 0))) ≡ false)

abbrev pub All : (Interrupt → Type 0) → List Interrupt → Type 0
All P [] = Unit
All P (i ∷ is) = P i × All P is

abbrev pub ends_cmd : Interrupt → Bool
ends_cmd (regs, is) = (is.ctoe || (has_cmd_error is || is.ac12e)) || is.cc

abbrev pub ends_data : Interrupt → Bool
ends_data (regs, is) = has_data_error is || is.tc

-- what the end of the command phase, and that of the data phase come to
abbrev pub cmd_result : Interrupt → Bool → Status
cmd_result (regs, is) payload =
    if is.ctoe
    then cmd_timeout
    else if has_cmd_error is || is.ac12e
    then cmd_error
    else if payload
    then progress_data
    else success

abbrev pub data_result : Interrupt → Status
data_result (regs, is) = if has_data_error is then data_error else success

quiet_cmd :
    (type : SdhciType) (i : Interrupt) (c : Cmd)
    → c.status ≡ progress_cmd
    → is_tuning c ≡ false
    → QuietCmd i
    → handle_irq_cmd type i.0 i.1 c ≡ (c, [], done tt)
unfolding handle_irq_cmd
quiet_cmd type (regs, is) c s t q = ground (arith, s, t, q)

last_cmd :
    (type : SdhciType) (i : Interrupt) (c : Cmd)
    → c.status ≡ progress_cmd
    → is_tuning c ≡ false
    → i.0.poll_reset ≡ done tt
    → ends_cmd i ≡ true
    → let (c', ws, r) = handle_irq_cmd type i.0 i.1 c in
      (r ≡ done tt) × (c' ≡ record c { status = cmd_result i c.flags.has_data })
unfolding handle_irq_cmd
last_cmd type (regs, is) c s t p q = ground (arith, s, t, p, q)

-- `c` is in the phase of the data
quiet_data :
    (adma2 : Bool) (i : Interrupt) (c : Cmd)
    → c.status ≡ progress_data
    → QuietData adma2 i
    → let (c', ws, r) = handle_irq_data i.0 adma2 i.1 c in
      (r ≡ done tt) × (c'.status ≡ progress_data)
unfolding handle_irq_data
quiet_data adma2 (regs, is) c s q = ground (arith, s, q)

last_data :
    (adma2 : Bool) (i : Interrupt) (c : Cmd)
    → c.status ≡ progress_data
    → i.0.poll_reset ≡ done tt
    → ends_data i ≡ true
    → let (c', ws, r) = handle_irq_data i.0 adma2 i.1 c in
      (r ≡ done tt) × (c'.status ≡ data_result i)
unfolding handle_irq_data
last_data adma2 (regs, is) c s p q = ground (arith, s, p, q)

cmd_ended :
    (type : SdhciType) (is : List Interrupt) (c : Cmd)
    → in_cmd_phase c ≡ false
    → cmd_wait_cmd_finished type is c ≡ some (c, done tt)
unfolding cmd_wait_cmd_finished
cmd_ended type [] c n = rw n refl
cmd_ended type (i ∷ is) c n = rw n refl

data_ended :
    (adma2 : Bool) (is : List Interrupt) (c : Cmd)
    → in_data_phase c ≡ false
    → cmd_wait_data_finished adma2 is c ≡ some (c, done tt)
unfolding cmd_wait_data_finished
data_ended adma2 [] c n = rw n refl
data_ended adma2 (i ∷ is) c n = rw n refl

cmd_result_ends :
    (i : Interrupt) (payload : Bool) (c : Cmd)
    → in_cmd_phase (record c { status = cmd_result i payload }) ≡ false
cmd_result_ends i payload c = ground arith

data_result_ends : (i : Interrupt) (c : Cmd) → c.status ≡ data_result i → in_data_phase c ≡ false
data_result_ends i c s = ground (arith, s)

wait_cmd_lem :
    (type : SdhciType) (before after : List Interrupt) (i : Interrupt) (c : Cmd)
    → c.status ≡ progress_cmd
    → is_tuning c ≡ false
    → All QuietCmd before
    → i.0.poll_reset ≡ done tt
    → ends_cmd i ≡ true
    → cmd_wait_cmd_finished type (before ++ i ∷ after) c
      ≡ some (record c { status = cmd_result i c.flags.has_data }, done tt)
unfolding cmd_wait_cmd_finished
wait_cmd_lem type [] after i c s t q p e =
    let (r, c') = last_cmd type i c s t p e in
    rw (ap (λ x. in_cmd_phase (record c { status = x })) s, r, c')
      (cmd_ended type after (record c { status = cmd_result i c.flags.has_data })
        (cmd_result_ends i c.flags.has_data c))
wait_cmd_lem type (b ∷ before) after i c s t q p e =
    rw (ap (λ x. in_cmd_phase (record c { status = x })) s, quiet_cmd type b c s t q.0)
      (wait_cmd_lem type before after i c s t q.1 p e)

-- A wait ends with a command of this status.
abbrev pub EndsWith : Status → Waited → Type 0
EndsWith st w = (c : Cmd) × (w ≡ some (c, done tt)) × (c.status ≡ st)

wait_data_lem :
    (adma2 : Bool) (before after : List Interrupt) (d : Interrupt) (c : Cmd)
    → c.status ≡ progress_data
    → All (QuietData adma2) before
    → d.0.poll_reset ≡ done tt
    → ends_data d ≡ true
    → EndsWith (data_result d) (cmd_wait_data_finished adma2 (before ++ d ∷ after) c)
unfolding cmd_wait_data_finished
wait_data_lem adma2 [] after d c s q p e =
    let (r, st) = last_data adma2 d c s p e in
    rw (ap (λ x. in_data_phase (record c { status = x })) s, r)
      (
        (handle_irq_data d.0 adma2 d.1 c).0,
        data_ended adma2 after (handle_irq_data d.0 adma2 d.1 c).0
            (data_result_ends d (handle_irq_data d.0 adma2 d.1 c).0 st),
        st,
      )
wait_data_lem adma2 (b ∷ before) after d c s q p e =
    let (r, st) = quiet_data adma2 b c s q.0 in
    rw (ap (λ x. in_data_phase (record c { status = x })) s, r)
      (wait_data_lem adma2 before after d (handle_irq_data b.0 adma2 b.1 c).0 st q.1 p e)

-- the status of a command whose response is told by `i`, and its data by `d`
abbrev pub exec_result : Interrupt → Interrupt → Bool → Status
exec_result (regs, is) d payload =
    if is.ctoe
    then cmd_timeout
    else if has_cmd_error is || is.ac12e
    then cmd_error
    else if payload
    then data_result d
    else success

fetch_if_present-status : (regs : Regs) (c : Cmd) → (fetch_if_present regs c).status ≡ c.status
unfolding fetch_response
fetch_if_present-status regs c = ground arith

after_data-EndsWith :
    (a : Answers) (st : Status) (w : Waited) → EndsWith st w → EndsWith st (after_data a w)
after_data-EndsWith a st w (c, e, s) = elim (Bool-cases (is_error c.status)) [
  | inl bad ↦ rw (e, bad) (c, refl, s)
  | inr good ↦
      rw (e, good) (fetch_if_present a.response c, refl, fetch_if_present-status a.response c ∙ s)
]

-- by whether there is a timeout, an error or data
wait_case :
    (adma2 : Bool) (a : Answers) (c : Cmd) (st : Status) (timeout error payload : Bool)
    → ((c' : Cmd)
        → c'.status ≡ progress_data
        → EndsWith st (cmd_wait_data_finished adma2 a.at_data c'))
    → EndsWith
        (if timeout
          then cmd_timeout
          else if error
          then cmd_error
          else if payload
          then st
          else success)
        (after_wait adma2 a (
          some (
            record c {
              status =
                  if timeout
                  then cmd_timeout
                  else if error
                  then cmd_error
                  else if payload
                  then progress_data
                  else success;
            },
            done tt,
          )))
wait_case adma2 a c st true error payload h = (_, refl, refl)
wait_case adma2 a c st false true payload h = (_, refl, refl)
wait_case adma2 a c st false false true h =
    after_data-EndsWith a st
      (cmd_wait_data_finished adma2 a.at_data (record c { status = progress_data }))
      (h (record c { status = progress_data }) refl)
wait_case adma2 a c st false false false h =
    after_data-EndsWith a success
      (cmd_wait_data_finished adma2 a.at_data (record c { status = success }))
      (
        record c { status = success },
        data_ended adma2 a.at_data (record c { status = success }) refl,
        refl,
      )

submitted :
    (cf : SubmitConf) (mc : MixCtrl) (c : Cmd)
    → (submitter cf mc c).1 ≡ done tt
    → (submitter cf mc c).0.status ≡ progress_cmd
submitted cf mc c r = of (cmd_submit_lem cf mc c).1
  where
    of :
        {A B C : Type 0}
        → (((submitter cf mc c).1 ≡ done tt) × ((submitter cf mc c).0.status ≡ progress_cmd) × A)
          ⊎ ((is_done (submitter cf mc c).1 ≡ false) × B × C)
        → (submitter cf mc c).0.status ≡ progress_cmd
    of (inl h) = h.1
    of (inr h) = absurd (ground (arith, r, h.0))

-- `Drv::cmd_exec()` comes back on every SDHCI controller where the bus becomes free, the command is
-- submitted and is none for tuning, some interrupt reports the end of the command or an error, some
-- interrupt reports the end of the transfer or an error, and resets end: where the interrupts before
-- these two report neither error nor end, and with ADMA2 none of them stops at a DMA boundary with
-- blocks left, the command has the status that these two give it.
pub sdhci_cmd_exec_lem :
    (cf : SubmitConf) (mc : MixCtrl) (a : Answers) (c : Cmd)
    (before after before' after' : List Interrupt) (i d : Interrupt)
    → cmd_wait_available a.at_avail c ≡ true
    → (submitter cf mc c).1 ≡ done tt
    → is_tuning (submitter cf mc c).0 ≡ false
    → a.at_cmd ≡ before ++ i ∷ after
    → All QuietCmd before
    → i.0.poll_reset ≡ done tt
    → ends_cmd i ≡ true
    → a.at_data ≡ before' ++ d ∷ after'
    → All (QuietData cf.adma2) before'
    → d.0.poll_reset ≡ done tt
    → ends_data d ≡ true
    → EndsWith (exec_result i d (submitter cf mc c).0.flags.has_data) (cmd_exec cf mc a c)
unfolding cmd_exec
sdhci_cmd_exec_lem cf mc a c before after before' after' i d free s t l q p e l' q' p' e' =
    rw
      (
        free,
        s,
        l,
        wait_cmd_lem cf.type before after i (submitter cf mc c).0 (submitted cf mc c s) t q p e,
      )
      (wait_case cf.adma2 a (submitter cf mc c).0 (data_result d) i.1.ctoe
        (has_cmd_error i.1 || i.1.ac12e) (submitter cf mc c).0.flags.has_data
        (λ c' s'. rw l' (wait_data_lem cf.adma2 before' after' d c' s' q' p' e')))
