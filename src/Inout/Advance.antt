-- ===== src/Inout/Advance.antt =====
-- One step of handle_irq_inout() and whole requests, whatever the controller reports.
use emmc_driver.Base.{
  ℕ, zero, suc, ◌+◌, ◌*◌, ◌≤◌, ◌<◌, ◌≡◌, refl, ◌≢◌, ◌⊎◌, Bool, true, false, not, ◌&&◌, ◌||◌, List,
  [], ◌∷◌, Option, none, some, arith, ◌==◌, if◌then◌else◌, length,
}
use emmc_driver.Mmc.{cmd12_stop_transmission_rd, cmd12_stop_transmission_wr, cmd23_set_block_count}
use emmc_driver.Cmd.{Cmd, Block, Status, is_error, is_success, ready_for_submit}
use emmc_driver.Inout.{
  Conf, work_done, more_work, Reply, Handled, Issue, issue, add_issue, replies, advance, complete,
  follow, skip_empty, restore_status, start, transfer_block_sdma, handle_irq_inout_sdma,
  handle_irq_inout_adma2, next_block, set_block_count_adma2,
}
use emmc_driver.Cmd.{reinit_inout_data, reinit_inout_nodata, init_inout, reset}

-- a step that ends the request has called the callback, any other has set up a command
abbrev pub Consistent : Handled → Type 0
Consistent (c, r, work_done) = r ≢ none
Consistent (c, r, more_work) = (r ≡ none) × (c.status ≡ ready_for_submit)

transfer_block_sdma-Consistent : (cf : Conf) (c : Cmd) → Consistent (transfer_block_sdma cf c)
unfolding transfer_block_sdma reinit_inout_data reinit_inout_nodata
transfer_block_sdma-Consistent cf c = ground arith

sdma-Consistent : (cf : Conf) (c : Cmd) → Consistent (handle_irq_inout_sdma cf c)
unfolding handle_irq_inout_sdma
sdma-Consistent cf c =
    ground
      (arith, transfer_block_sdma-Consistent cf (next_block c), transfer_block_sdma-Consistent cf c)

adma2-Consistent : (cf : Conf) (c : Cmd) → Consistent (handle_irq_inout_adma2 cf c)
unfolding handle_irq_inout_adma2 reinit_inout_data
adma2-Consistent cf c = ground arith

-- After a step of `handle_irq_inout()`, the callback was called if the request has ended, and it
-- was not called, and a command is ready to be submitted, if there is more work.
pub advance-Consistent : (cf : Conf) (c : Cmd) → Consistent (advance cf c)
unfolding advance reinit_inout_nodata
advance-Consistent cf c =
    ground (arith, sdma-Consistent cf (restore_status c), adma2-Consistent cf (restore_status c))

abbrev pub settled : Status → Bool
settled s = is_success s || is_error s

abbrev pub is_cmd12 : Cmd → Bool
is_cmd12 c = (c.cmd == cmd12_stop_transmission_rd) || (c.cmd == cmd12_stop_transmission_wr)

-- Of a request that waits for the controller: CMD23 is only sent where it is available, and the
-- state kept across CMD12 is that of a completed transfer.
pub record Pending (cf : Conf) (c : Cmd) : Type 0 where
  pub cmd23_available : (c.cmd == cmd23_set_block_count) ≡ true → cf.has_cmd23 ≡ true
  pub kept_settled : is_cmd12 c ≡ true → settled c.status_cmd12 ≡ true

-- Two commands for each block that is left, less one that was sent.
abbrev pub rank : Conf → Cmd → ℕ
rank cf c =
    2 * length c.blocks
    + (if (c.flags.inout_cmd12 && not cf.auto_cmd12) || (c.cmd == cmd23_set_block_count)
        then 1
        else 0)

abbrev pub Progress : Conf → ℕ → Handled → Type 0
Progress cf n (c, r, work_done) = r ≢ none
Progress cf n (c, r, more_work) = (r ≡ none) × (rank cf c < n) × Pending cf c

pub length-skip_empty : (bs : List Block) → length (skip_empty bs) ≤ length bs
unfolding skip_empty
length-skip_empty [] = omega arith
length-skip_empty (b ∷ bs) = ground (arith, length-skip_empty bs)

transfer_block_sdma-Progress :
    (cf : Conf) (c : Cmd) (n : ℕ)
    → (c.flags.inout_cmd12 && not cf.auto_cmd12) ≡ false
    → ((c.cmd == cmd23_set_block_count) ≡ true → cf.has_cmd23 ≡ true)
    → 2 * length c.blocks + (if c.cmd == cmd23_set_block_count then 0 else 1) < n
    → Progress cf n (transfer_block_sdma cf c)
unfolding transfer_block_sdma reinit_inout_data reinit_inout_nodata
transfer_block_sdma-Progress cf c n f h l = ground arith

skip_empty-shorter : (b : Block) (bs : List Block) → length (skip_empty bs) < length (b ∷ bs)
skip_empty-shorter b bs = omega (arith, length-skip_empty bs)

next_block_lem :
    (c : Cmd) (bs : List Block)
    → c.blocks ≡ bs
    → ((length (next_block c).blocks < length c.blocks) ⊎ ((next_block c).blocks ≡ []))
      × ((next_block c).flags ≡ c.flags)
      × ((next_block c).cmd ≡ c.cmd)
unfolding next_block
next_block_lem c [] e = ground (arith, e)
next_block_lem c (b ∷ bs) e = ground (arith, e, skip_empty-shorter b bs)

transfer_block_sdma-nil :
    (cf : Conf) (c : Cmd) (n : ℕ) → c.blocks ≡ [] → Progress cf n (transfer_block_sdma cf c)
unfolding transfer_block_sdma
transfer_block_sdma-nil cf c n e = ground arith

next_block-Progress :
    (cf : Conf) (c : Cmd)
    → (c.flags.inout_cmd12 && not cf.auto_cmd12) ≡ false
    → (c.cmd == cmd23_set_block_count) ≡ false
    → Progress cf (rank cf c) (transfer_block_sdma cf (next_block c))
next_block-Progress cf c f h = ground (
  arith,
  next_block_lem c c.blocks refl,
  transfer_block_sdma-nil cf (next_block c) (rank cf c),
  transfer_block_sdma-Progress cf (next_block c) (rank cf c),
)

sdma-Progress :
    (cf : Conf) (c : Cmd)
    → (c.flags.inout_cmd12 && not cf.auto_cmd12) ≡ false
    → Pending cf c
    → is_success c.status ≡ true
    → Progress cf (rank cf c) (handle_irq_inout_sdma cf c)
unfolding handle_irq_inout_sdma
sdma-Progress cf c f p s = ground (
  arith,
  transfer_block_sdma-Progress cf c (rank cf c) f p.cmd23_available,
  next_block-Progress cf c f,
)

adma2-Progress :
    (cf : Conf) (c : Cmd)
    → (c.flags.inout_cmd12 && not cf.auto_cmd12) ≡ false
    → Pending cf c
    → Progress cf (rank cf c) (handle_irq_inout_adma2 cf c)
unfolding handle_irq_inout_adma2 reinit_inout_data
adma2-Progress cf c f p = ground (arith, p.cmd23_available)

-- Each completed command brings the request nearer to its end.
pub advance-Progress :
    (cf : Conf) (c : Cmd)
    → Pending cf c
    → settled c.status ≡ true
    → Progress cf (rank cf c) (advance cf c)
unfolding advance reinit_inout_nodata
advance-Progress cf c p s = ground (
  arith,
  p.kept_settled,
  p.cmd23_available,
  sdma-Progress cf c,
  sdma-Progress cf (record c { status = c.status_cmd12 }),
  adma2-Progress cf c,
  adma2-Progress cf (record c { status = c.status_cmd12 }),
)

Progress-mono : (cf : Conf) (h : Handled) {m n : ℕ} → m ≤ n → Progress cf m h → Progress cf n h
Progress-mono cf (c, r, work_done) le p = p
Progress-mono cf (c, r, more_work) le (q, lt, p) = (q, omega arith, p)

-- The request is over after at most `n` more commands, with one call of its callback.
abbrev pub Ends : ℕ → Option (List Issue × List Reply) → Type 0
Ends n none = ⊥
Ends n (some (is, rs)) = (length is ≤ n) × (length rs ≡ 1)

one_reply : (r : Option Reply) → r ≢ none → length (replies r) ≡ 1
one_reply none n = absurd (n refl)
one_reply (some r) n = refl

added-Ends :
    (n : ℕ) (i : Issue) (r : Option Reply) (o : Option (List Issue × List Reply))
    → r ≡ none
    → Ends n o
    → Ends (suc n) (add_issue i r o)
added-Ends n i r none e h = h
added-Ends n i r (some (is, rs)) e h = rw e (omega (arith, h.0), h.1)

complete-Pending : {cf : Conf} {c : Cmd} (s : Status) → Pending cf c → Pending cf (complete c s)
complete-Pending s p = record { cmd23_available = p.cmd23_available; kept_settled = p.kept_settled }

follow-Ends :
    (fuel : ℕ) (cf : Conf) (st : ℕ → Status) (h : Handled)
    → ((n : ℕ) → settled (st n) ≡ true)
    → Progress cf fuel h
    → Ends fuel (follow fuel cf st h)
unfolding follow
follow-Ends fuel cf st (c, r, work_done) s p = (omega arith, one_reply r p)
follow-Ends zero cf st (c, r, more_work) s p = absurd (omega (arith, p.1))
follow-Ends (suc fuel) cf st (c, r, more_work) s p =
    added-Ends fuel (issue c) r (follow fuel cf st (advance cf (complete c (st fuel)))) p.0 (
      follow-Ends fuel cf st (advance cf (complete c (st fuel))) s (
        Progress-mono cf (advance cf (complete c (st fuel))) (omega (arith, p.1))
          (advance-Progress cf (complete c (st fuel)) (complete-Pending (st fuel) p.2) (s fuel))))

start-Progress :
    (cf : Conf) (c : Cmd)
    → c.flags.inout_cmd12 ≡ false
    → (c.cmd == cmd23_set_block_count) ≡ false
    → Progress cf (2 * length c.blocks + 2) (start cf c)
unfolding start set_block_count_adma2 reinit_inout_data reinit_inout_nodata
start-Progress cf c f h =
    ground (arith, transfer_block_sdma-Progress cf c (2 * length c.blocks + 2))

-- Whatever states the controller completes the commands of a request with, success or any error,
-- the request ends after at most two commands for each of its blocks and two more, and all steps
-- together have called its callback exactly once.
pub inout-Ends :
    (cf : Conf) (st : ℕ → Status) (c : Cmd) (sector : ℕ) (blocks : List Block) (cb : ℕ) (rd : Bool)
    → ((n : ℕ) → settled (st n) ≡ true)
    → let fuel = 2 * length blocks + 2 in
      Ends fuel (follow fuel cf st (start cf (init_inout c sector blocks (some cb) rd)))
unfolding init_inout reset
inout-Ends cf st c sector blocks cb rd s =
    follow-Ends (2 * length blocks + 2) cf st (start cf (init_inout c sector blocks (some cb) rd)) s
      (start-Progress cf (init_inout c sector blocks (some cb) rd) refl refl)
