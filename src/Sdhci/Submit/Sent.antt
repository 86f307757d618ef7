-- ===== src/Sdhci/Submit/Sent.antt =====
-- cmd_submit() of server/src/drv_sdhci-impl.h: what the controller is told to send.
use emmc_driver.Base.{
  ◌⊎◌, inl, inr, is_done, ℕ, Bool, true, false, List, [], ◌∷◌, ◌++◌, ◌≡◌, refl, ◌∙◌, arith, Outcome,
  done, throws, Option, some,
}
use emmc_driver.Cmd.{is_ready, progress_cmd, Cmd, cmd_idx}
use emmc_driver.Sdhci.{SdhciType, is_usdhc}
use emmc_driver.Sdhci.Submit.{SubmitConf, Effect, xfer_typ, cmd_arg, Prepared, MixCtrl}
use emmc_driver.Sdhci.Submit.Send.{
  final_writes, cmd_submit, handle_tuning, set_dma, after_prepare, send, command_fields, Submitted,
}
use emmc_driver.Sdhci.Submit.Kept.{
  split_and, is_quiet, quiet, Keeps, if-elim, prepare-Keeps, handle_tuning-Keeps, set_dma-Keeps,
}

-- The commands that the controller is told to send by what is written, each with the argument that
-- its register then holds.
abbrev pub sent : Option ℕ → List Effect → List (Option ℕ × ℕ)
sent a [] = []
sent a (cmd_arg n ∷ es) = sent (some n) es
sent a (xfer_typ x ∷ es) = (a, x.cmdinx) ∷ sent a es
sent a (e ∷ es) = sent a es

sent-step :
    (a : Option ℕ) (e : Effect) (es : List Effect) → is_quiet e ≡ true → sent a (e ∷ es) ≡ sent a es
sent-step a (cmd_arg n) es q = absurd (ground arith)
sent-step a (xfer_typ x) es q = absurd (ground arith)
sent-step a e es q = refl

sent-quiet : (a : Option ℕ) (es fs : List Effect) → quiet es ≡ true → sent a (es ++ fs) ≡ sent a fs
sent-quiet a [] fs q = refl
sent-quiet a (e ∷ es) fs q =
    let (q1, q2) = split_and (is_quiet e) (quiet es) q in
    sent-step a e (es ++ fs) q1 ∙ sent-quiet a es fs q2

-- What a submission comes to, whatever argument the controller held before.
abbrev pub Outcomes : Cmd → Submitted → Type 0
Outcomes c (c', es, r) =
    (c'.flags.enqueued ≡ c.flags.enqueued)
    × (((r ≡ done tt)
          × (c'.status ≡ progress_cmd)
          × ((a : Option ℕ) → sent a es ≡ (some c.arg, cmd_idx c) ∷ []))
        ⊎ ((is_done r ≡ false) × (c'.status ≡ c.status) × ((a : Option ℕ) → sent a es ≡ [])))

sent-quiet-nil : (es : List Effect) → quiet es ≡ true → (a : Option ℕ) → sent a es ≡ []
sent-quiet-nil [] q a = refl
sent-quiet-nil (e ∷ es) q a =
    let (q1, q2) = split_and (is_quiet e) (quiet es) q in
    sent-step a e es q1 ∙ sent-quiet-nil es q2 a

final_writes-sent :
    (b : Bool) (type : SdhciType) (c : Cmd) (p : Prepared)
    → Keeps c p
    → (a : Option ℕ) → sent a (final_writes b type p) ≡ (some c.arg, cmd_idx c) ∷ []
final_writes-sent true type c p k a = rw (k.arg, k.idx) refl
final_writes-sent false type c p k a = rw (k.arg, k.idx) refl

send-Outcomes :
    (cf : SubmitConf) (c : Cmd) (h : Prepared × Outcome (Unit {0}))
    → Keeps c h.0
    → Outcomes c (send cf h)
send-Outcomes cf c (p, throws e) k =
    (k.enqueued, inr (refl, k.status, sent-quiet-nil p.effects k.quiet))
send-Outcomes cf c (p, done u) k = (
  k.enqueued,
  inl (
    refl,
    refl,
    λ a.
        sent-quiet a p.effects (final_writes (is_usdhc cf.type) cf.type p) k.quiet
        ∙ final_writes-sent (is_usdhc cf.type) cf.type c p k a,
  ),
)

after_prepare-Outcomes :
    (cf : SubmitConf) (c : Cmd) (h : Prepared × Outcome (Unit {0}))
    → Keeps c h.0
    → Outcomes c (after_prepare cf h)
after_prepare-Outcomes cf c (p, throws e) k =
    (k.enqueued, inr (refl, k.status, sent-quiet-nil p.effects k.quiet))
after_prepare-Outcomes cf c (p, done u) k =
    send-Outcomes cf c (set_dma cf (handle_tuning cf p))
      (set_dma-Keeps cf c _ (handle_tuning-Keeps cf c p k))

-- `cmd_submit()` leaves the flag `enqueued` of any command as it is. Either it is done: the command
-- is then in its command phase, and the controller was told to send one command, with the index
-- and the argument of this one. Or it throws: the status is then what it was, and the controller
-- was not told to send a command.
pub cmd_submit_lem : (cf : SubmitConf) (mc : MixCtrl) (c : Cmd) → Outcomes c (cmd_submit cf mc c)
unfolding cmd_submit command_fields
cmd_submit_lem cf mc c =
    if-elim (Outcomes c) (is_ready c.status) _ _
      (after_prepare-Outcomes cf c _ (
        prepare-Keeps cf c _ (record {
          status = refl;
          enqueued = refl;
          arg = refl;
          blockcnt = refl;
          blocksize = refl;
          idx = refl;
          quiet = refl;
        })))
      (refl, inr (refl, refl, λ a. refl))
