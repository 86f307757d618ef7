-- ===== src/Sdhi/Exec.antt =====
-- Drv::cmd_exec() of server/src/drv.h on the SDHI controller of server/src/drv_sdhi.cc: a command is
-- submitted and waited for. What comes from the controller is an argument.
use emmc_driver.Base.{
  Bool-cases, inl, inr, not, ℕ, ◌%◌, ◌^◌, ◌==◌, ◌≡◌, refl, ◌||◌, ◌++◌, Bool, true, false, List, [],
  ◌∷◌, Option, none, some, Outcome, done, throws, einval, arith, if◌then◌else◌,
}
use emmc_driver.Mmc.{test_bit}
use emmc_driver.Cmd.{
  Cmd, Status, success, progress_cmd, progress_data, cmd_timeout, cmd_error, data_error, is_error,
  is_ready,
}
use emmc_driver.Sdhi.Submit.{
  Effect, cmd_submit, submit_mode, sent_with, write_all, data_effects, cmd_effects, resp_mode,
  RespMode,
}
use emmc_driver.Sdhi.Interrupt.{
  SdInfo, has_error, data_failed, RspRegs, handle_irq_data, cmd_fetch_response,
  cmd_wait_cmd_finished, cmd_wait_data_finished, in_data_phase,
}
use emmc_driver.Sdhi.Ends.{AllQuiet, cmd_result, sdhi_cmd_wait_lem}

-- What Reg_sd_info holds at the interrupts of the two waits, in the second also whether the
-- controller is free in time, and the response.
pub record Interrupts : Type 0 where
  pub at_cmd : List SdInfo
  pub at_data : List (SdInfo × Bool)
  pub response : RspRegs

-- `Rsp_present` is bit 8.
abbrev pub fetch_if_present : RspRegs → Cmd → Cmd
fetch_if_present regs c = if test_bit c.cmd 8 then cmd_fetch_response regs c else c

-- `none` is a wait for more interrupts.
abbrev pub Ran : Type 0
Ran = Option (Cmd × Outcome (Unit {0}))

abbrev pub after_data : Interrupts → Ran → Ran
after_data ints none = none
after_data ints (some (c, throws e)) = some (c, throws e)
after_data ints (some (c, done u)) =
    if is_error c.status
    then some (c, done tt)
    else some (fetch_if_present ints.response c, done tt)

abbrev pub after_wait : Interrupts → Option Cmd → Ran
after_wait ints none = none
after_wait ints (some c) =
    if is_error c.status
    then some (c, done tt)
    else after_data ints (cmd_wait_data_finished ints.at_data c)

abbrev pub after_submit : Interrupts → Cmd → Outcome (Unit {0}) → Ran
after_submit ints c (throws e) = some (c, throws e)
after_submit ints c (done u) = after_wait ints (cmd_wait_cmd_finished ints.at_cmd c)

-- cmd_wait_available() does nothing for SDHI; `ready` is for the registers of cmd_submit().
unfoldable pub cmd_exec : (ℕ → Bool) → Interrupts → Cmd → Ran
cmd_exec ready ints c = let (c', es, r) = cmd_submit ready c in after_submit ints c' r

sent_done :
    (c : Cmd) (p : List Effect × Outcome (Unit {0}))
    → (sent_with c p).2 ≡ done tt
    → (sent_with c p).0 ≡ record c { status = progress_cmd }
sent_done c (es, done u) h = refl
sent_done c (es, throws e) h = absurd (ground (arith, h))

submitted :
    (ready : ℕ → Bool) (c : Cmd) (o : Option RespMode)
    → (submit_mode ready c o).2 ≡ done tt
    → (submit_mode ready c o).0 ≡ record c { status = progress_cmd }
submitted ready c none h = absurd (ground (arith, h))
submitted ready c (some m) h =
    by_test c.flags.has_data (not (c.blocksize % 2 ^ 10 == c.blocksize)) h
  where
    by_test :
        (a b : Bool)
        → let s =
            if a
            then if b
              then (c, [], throws einval)
              else sent_with c (write_all ready 0 (data_effects c ++ cmd_effects c m))
            else sent_with c (write_all ready 0 (cmd_effects c m)) in
          s.2 ≡ done tt → s.0 ≡ record c { status = progress_cmd }
    by_test true true h = absurd (ground (arith, h))
    by_test true false h = sent_done c (write_all ready 0 (data_effects c ++ cmd_effects c m)) h
    by_test false b h = sent_done c (write_all ready 0 (cmd_effects c m)) h

submitted_ready :
    (ready : ℕ → Bool) (c : Cmd)
    → (cmd_submit ready c).2 ≡ done tt
    → (cmd_submit ready c).0 ≡ record c { status = progress_cmd }
unfolding cmd_submit
submitted_ready ready c h = go (is_ready c.status) h
  where
    go :
        (b : Bool)
        → (if b then submit_mode ready c (resp_mode c.cmd) else (c, [], throws einval)).2 ≡ done tt
        → (if b then submit_mode ready c (resp_mode c.cmd) else (c, [], throws einval)).0
          ≡ record c { status = progress_cmd }
    go true h = submitted ready c (resp_mode c.cmd) h
    go false h = absurd (ground arith)

-- the status with which the wait for the data ends at the interrupt `d`
abbrev pub data_result : SdInfo → Status
data_result d = if data_failed d then data_error else success

data_step :
    (c : Cmd) (d : SdInfo)
    → let (c', ws, r) = handle_irq_data true c d in
      (c' ≡ record c { status = data_result d }) × (r ≡ done tt)
unfolding handle_irq_data
data_step c d = ground arith

data_ends :
    (ds : List (SdInfo × Bool)) (c : Cmd)
    → in_data_phase c ≡ false
    → cmd_wait_data_finished ds c ≡ some (c, done tt)
unfolding cmd_wait_data_finished
data_ends [] c n = rw n refl
data_ends ((d, free) ∷ ds) c n = rw n refl

no_phase : (c : Cmd) (d : SdInfo) → in_data_phase (record c { status = data_result d }) ≡ false
no_phase c d = ground arith

-- `c` is in the data phase
wait_data :
    (c : Cmd) (d : SdInfo) (ds : List (SdInfo × Bool))
    → in_data_phase c ≡ true
    → cmd_wait_data_finished ((d, true) ∷ ds) c
      ≡ some (record c { status = data_result d }, done tt)
unfolding cmd_wait_data_finished
wait_data c d ds h =
    rw (h, (data_step c d).1, (data_step c d).0)
      (data_ends ds (record c { status = data_result d }) (no_phase c d))

-- the status of a command whose response is told by `i`, and its data by `d`
abbrev pub exec_result : SdInfo → SdInfo → Cmd → Status
exec_result i d c =
    if i.err6
    then cmd_timeout
    else if has_error i
    then cmd_error
    else if c.flags.has_data
    then data_result d
    else success

abbrev pub finished : RspRegs → Cmd → Cmd
finished regs c = if is_error c.status then c else fetch_if_present regs c

after_data-finished :
    (ints : Interrupts) (c : Cmd)
    → after_data ints (some (c, done tt)) ≡ some (finished ints.response c, done tt)
after_data-finished ints c = elim (Bool-cases (is_error c.status)) [
  | inl e ↦ rw (e) refl
  | inr e ↦ rw (e) refl
]

module _ (c : Cmd) (i d : SdInfo) (l : List SdInfo) (ds : List (SdInfo × Bool))
    (regs : RspRegs) where
  abbrev ints : Interrupts
  ints = record { at_cmd = l; at_data = (d, true) ∷ ds; response = regs }

  -- by whether there is a timeout, an error or data
  wait_case :
      (timeout error payload : Bool)
      → after_wait ints (
          some (record c {
            status =
                if timeout
                then cmd_timeout
                else if error
                then cmd_error
                else if payload
                then progress_data
                else success;
          }))
        ≡ some (
            (
              finished regs (record c {
                status =
                    if timeout
                    then cmd_timeout
                    else if error
                    then cmd_error
                    else if payload
                    then data_result d
                    else success;
              }),
              done tt,
            ))
  wait_case true error payload = refl
  wait_case false true payload = refl
  wait_case false false true =
      rw (wait_data (record c { status = progress_data }) d ds refl)
        (after_data-finished ints (record c { status = data_result d }))
  wait_case false false false =
      rw (data_ends ((d, true) ∷ ds) (record c { status = success }) refl) refl

  wait_lem :
      after_wait ints (some (record c { status = cmd_result i c }))
      ≡ some (finished regs (record c { status = exec_result i d c }), done tt)
  wait_lem = wait_case i.err6 (has_error i) c.flags.has_data

-- `Drv::cmd_exec()` comes back on SDHI with a command that was submitted if an interrupt reports the
-- response or its timeout and, for the data, any further one comes, at which the controller is free
-- in time: the command has the status that these two give it, and the response if it succeeded.
pub sdhi_cmd_exec_lem :
    (ready : ℕ → Bool) (c : Cmd) (before after : List SdInfo) (ds : List (SdInfo × Bool))
    (i d : SdInfo) (regs : RspRegs)
    → (cmd_submit ready c).2 ≡ done tt
    → AllQuiet before
    → i.info0 || i.err6 ≡ true
    → cmd_exec ready
        (record { at_cmd = before ++ i ∷ after; at_data = (d, true) ∷ ds; response = regs })
        c
      ≡ some (finished regs (record c { status = exec_result i d c }), done tt)
unfolding cmd_exec
sdhi_cmd_exec_lem ready c before after ds i d regs s q h =
    rw
      (
        s,
        submitted_ready ready c s,
        sdhi_cmd_wait_lem before after i (record c { status = progress_cmd }) refl q h,
      )
      (wait_lem c i d (before ++ i ∷ after) ds regs)
