-- ===== src/Sdhi/Sent.antt =====
-- cmd_submit() of server/src/drv_sdhi.cc: what the controller is told to send, and with what in its
-- registers.
use emmc_driver.Base.{
  ℕ, ◌%◌, ◌^◌, Bool, true, false, not, ◌&&◌, List, [], ◌∷◌, ◌++◌, ◌≡◌, refl, ap, ◌∙◌, arith, ◌⊎◌,
  inl, inr, Option, none, some, done, throws, einval, eio, Outcome, ltb, ◌==◌, Bool-cases,
  if◌then◌else◌, ==_iff,
}
use emmc_driver.Mmc.{test_bit}
use emmc_driver.Cmd.{Cmd, cmd_idx, is_ready, progress_cmd}
use emmc_driver.Sdhi.Submit.{
  RespMode, SdCmd, Effect, sd_size, sd_seccnt, dtran_addr, sd_arg, sd_stop, dma_rw, dtran_mode,
  sd_cmd, enable_ints, resp_mode, memory, Submitted, submit_mode, cmd_submit, polls_busy, next_poll,
  write_all, data_effects, cmd_effects, sd_cmd_of, sent_with,
}

-- The registers of the controller that a command uses.
pub record Controller : Type 0 where
  pub arg : ℕ
  pub size : ℕ
  pub seccnt : ℕ
  pub sec : Bool
  pub dma : Bool
  pub reads : Bool
  pub addr : ℕ

abbrev write : Controller → Effect → Controller
write k (sd_size n) = record k { size = n }
write k (sd_seccnt n) = record k { seccnt = n }
write k (dtran_addr n) = record k { addr = n }
write k (sd_arg n) = record k { arg = n }
write k (sd_stop b) = record k { sec = b }
write k (dma_rw b) = record k { dma = b }
write k (dtran_mode b) = record k { reads = b }
write k e = k

-- The commands that the controller is told to send, each with what its registers then hold.
abbrev pub sent : Controller → List Effect → List (SdCmd × Controller)
sent k [] = []
sent k (sd_cmd x ∷ es) = (x, k) ∷ sent k es
sent k (e ∷ es) = sent (write k e) es

-- The registers as a command wants them: a command without data leaves all but its argument alone.
abbrev pub wanted : Cmd → Controller → Controller
wanted c k =
    if c.flags.has_data
    then record {
      arg = c.arg;
      size = c.blocksize;
      seccnt = c.blockcnt;
      sec = ltb 1 c.blockcnt;
      dma = true;
      reads = test_bit c.cmd 13;
      addr = memory c.blocks c.data_phys;
    }
    else record k { arg = c.arg }

abbrev pub command : Cmd → RespMode → SdCmd
command c m = record {
  cf = cmd_idx c;
  mode = m;
  md3 = c.flags.has_data;
  md4 = c.flags.has_data && test_bit c.cmd 13;
  md5 = c.flags.has_data && ltb 1 c.blockcnt;
}

abbrev pub Outcomes : Cmd → Submitted → Type 0
Outcomes c (c', es, r) =
    ((r ≡ done tt)
      × (c' ≡ record c { status = progress_cmd })
      × ((m : RespMode) × (resp_mode c.cmd ≡ some m)
          × ((k : Controller) → sent k es ≡ (command c m, wanted c k) ∷ [])))
    ⊎ (((r ≡ throws einval) × (c' ≡ c) × (es ≡ []))
        ⊎ ((r ≡ throws eio) × (c' ≡ c) × ((k : Controller) → sent k es ≡ [])))

-- Effects that do not send a command.
abbrev no_cmd : Effect → Bool
no_cmd (sd_cmd x) = false
no_cmd e = true

abbrev NoCmds : List Effect → Type 0
NoCmds [] = Unit
NoCmds (e ∷ es) = (no_cmd e ≡ true) × NoCmds es

-- `es`, and then the command, were written, or no command.
abbrev Wrote : List Effect → List Effect × Outcome (Unit {0}) → Type 0
Wrote es (ws, r) =
    ((r ≡ done tt) × (ws ≡ es)) ⊎ ((r ≡ throws eio) × ((k : Controller) → sent k ws ≡ []))

sent-no_cmd :
    (k : Controller) (e : Effect) (ws : List Effect)
    → no_cmd e ≡ true
    → sent k (e ∷ ws) ≡ sent (write k e) ws
sent-no_cmd k (sd_cmd x) ws n = absurd (ground (arith, n))
sent-no_cmd k e ws n = refl

after_effect :
    (e : Effect) (es : List Effect) (p : List Effect × Outcome (Unit {0}))
    → no_cmd e ≡ true
    → Wrote es p
    → Wrote (e ∷ es) (e ∷ p.0, p.1)
after_effect e es (ws, r) n (inl (d, w)) = inl (d, ap (λ x. e ∷ x) w)
after_effect e es (ws, r) n (inr (t, s)) = inr (t, λ k. sent-no_cmd k e ws n ∙ s (write k e))

write_all-Wrote :
    (ready : ℕ → Bool) (n : ℕ) (es : List Effect) (x : SdCmd)
    → NoCmds es
    → Wrote (es ++ sd_cmd x ∷ []) (write_all ready n (es ++ sd_cmd x ∷ []))
unfolding write_all
write_all-Wrote ready n [] x h = elim (Bool-cases (ready n)) [
  | inl free ↦ rw free (inl (refl, refl))
  | inr busy ↦ rw busy (inr (refl, λ k. refl))
]
write_all-Wrote ready n (e ∷ es) x h = elim (Bool-cases (polls_busy e && not (ready n))) [
  | inl busy ↦ rw busy (inr (refl, λ k. refl))
  | inr free ↦ rw free (
      after_effect e (es ++ sd_cmd x ∷ []) (write_all ready (next_poll e n) (es ++ sd_cmd x ∷ []))
        h.0 (write_all-Wrote ready (next_poll e n) es x h.1))
]

sent_with-Outcomes :
    (c : Cmd) (m : RespMode) (es : List Effect) (p : List Effect × Outcome (Unit {0}))
    → resp_mode c.cmd ≡ some m
    → ((k : Controller) → sent k es ≡ (command c m, wanted c k) ∷ [])
    → Wrote es p
    → Outcomes c (sent_with c p)
sent_with-Outcomes c m es (ws, done u) e s (inl (d, w)) =
    inl (refl, refl, (m, e, λ k. ap (sent k) w ∙ s k))
sent_with-Outcomes c m es (ws, done u) e s (inr (t, n)) = absurd (ground (arith, t))
sent_with-Outcomes c m es (ws, throws x) e s (inl (d, w)) = absurd (ground (arith, d))
sent_with-Outcomes c m es (ws, throws x) e s (inr (t, n)) = inr (inr (t, refl, n))

submit_mode-Outcomes :
    (ready : ℕ → Bool) (c : Cmd) (o : Option RespMode)
    → resp_mode c.cmd ≡ o
    → Outcomes c (submit_mode ready c o)
submit_mode-Outcomes ready c none e = inr (inl (refl, refl, refl))
submit_mode-Outcomes ready c (some m) e = by_data c.flags.has_data refl
  where
    by_size :
        (b : Bool)
        → c.flags.has_data ≡ true
        → c.blocksize % 2 ^ 10 == c.blocksize ≡ b
        → Outcomes c (
            if not b
            then (c, [], throws einval)
            else sent_with c (write_all ready 0 (data_effects c ++ cmd_effects c m)))
    by_size false with_data big = inr (inl (refl, refl, refl))
    by_size true with_data fits =
        sent_with-Outcomes c m (data_effects c ++ cmd_effects c m)
          (write_all ready 0 (data_effects c ++ cmd_effects c m)) e
          (λ k. rw (with_data, (==_iff (c.blocksize % 2 ^ 10) c.blocksize).0 fits) refl)
          (write_all-Wrote ready 0 (data_effects c ++ enable_ints ∷ sd_arg c.arg ∷ [])
            (sd_cmd_of c m)
            (refl, (refl, (refl, (refl, (refl, (refl, (refl, (refl, (refl, (refl, tt)))))))))))

    by_data :
        (b : Bool)
        → c.flags.has_data ≡ b
        → Outcomes c (
            if b
            then if not (c.blocksize % 2 ^ 10 == c.blocksize)
              then (c, [], throws einval)
              else sent_with c (write_all ready 0 (data_effects c ++ cmd_effects c m))
            else sent_with c (write_all ready 0 (cmd_effects c m)))
    by_data true with_data = by_size (c.blocksize % 2 ^ 10 == c.blocksize) with_data refl
    by_data false without =
        sent_with-Outcomes c m (cmd_effects c m) (write_all ready 0 (cmd_effects c m)) e
          (λ k. rw without refl)
          (write_all-Wrote ready 0 (enable_ints ∷ sd_arg c.arg ∷ []) (sd_cmd_of c m)
            (refl, (refl, tt)))

-- `cmd_submit()` is done with a command, which is then in its command phase: the controller is told
-- to send this one command, with its response type, while the registers hold its argument and, for
-- a command with data, exactly the size and number of its blocks, their address and direction. Or
-- it throws EINVAL, and then nothing was written; or, where the controller is not free in time for
-- one of the registers, EIO, and then no command was sent. Where it throws, the command is as
-- before.
pub sdhi_cmd_submit_lem : (ready : ℕ → Bool) (c : Cmd) → Outcomes c (cmd_submit ready c)
unfolding cmd_submit
sdhi_cmd_submit_lem ready c = elim (Bool-cases (is_ready c.status)) [
  | inl ok ↦ rw ok (submit_mode-Outcomes ready c (resp_mode c.cmd) refl)
  | inr other ↦ rw other (inr (inl (refl, refl, refl)))
]
