-- ===== src/CmdQueue/Fifo.antt =====
-- Cmd_queue as a queue of slots: those that are finished and wait for their destruction, and those
-- that are still to be worked on, oldest first.
use emmc_driver.Base.{
  ℕ, zero, suc, ◌+◌, ◌-◌, ◌%◌, ◌<◌, ◌≡◌, refl, ap, ◌≢◌, ◌⊎◌, List, [], ◌∷◌, ◌++◌, none, some, done,
  throws, einval, arith, length,
}
use mathlib.Core.List.{head?}
use emmc_driver.CmdQueue.{
  CmdQueue, wrap_around, create, working, is_working, num_work, num_work_from, cmd_work_done,
  destruct,
}
use emmc_driver.CmdQueue.Inv.{Inv, dist, create_lem, destruct_lem}

-- `n` slots from `s` on
abbrev pub slots : ℕ → ℕ → List ℕ
slots s zero = []
slots s (suc n) = s % 32 ∷ slots (s + 1) n

abbrev pub finished : CmdQueue → List ℕ
finished q = slots q.destruct_pos (dist q.destruct_pos q.working_pos)

abbrev pub active : CmdQueue → List ℕ
active q = slots q.working_pos (dist q.working_pos q.create_pos)

-- The specification: a bounded queue with two parts.
pub record Fifo : Type 0 where
  pub fin : List ℕ
  pub act : List ℕ

abbrev pub view : CmdQueue → Fifo
view q = record { fin = finished q; act = active q }

pub length-slots : (s n : ℕ) → length (slots s n) ≡ n
length-slots s zero = refl
length-slots s (suc n) = ap suc (length-slots (s + 1) n)

slots_congr : (a b n : ℕ) → a % 32 ≡ b % 32 → slots a n ≡ slots b n
slots_congr a b zero h = refl
slots_congr a b (suc n) h = ground (arith, slots_congr (a + 1) (b + 1) n)

slots-snoc : (s n : ℕ) → slots s (suc n) ≡ slots s n ++ (s + n) % 32 ∷ []
slots-snoc s zero = ground arith
slots-snoc s (suc n) = ground (arith, slots-snoc (s + 1) n)

-- A list of slots with its length given by an equation.
pub slots_first :
    (s s' n m : ℕ) → s < 32 → s' % 32 ≡ (s + 1) % 32 → n ≡ suc m → slots s n ≡ s ∷ slots s' m
slots_first s s' n m hs e h = ground (arith, slots_congr s' (s + 1) m)

slots_last : (s n m e : ℕ) → n ≡ suc m → e ≡ (s + m) % 32 → slots s n ≡ slots s m ++ e ∷ []
slots_last s n m e h he = ground (arith, slots-snoc s m)

-- What a non-empty list of slots begins with.
slots-uncons :
    (s n i : ℕ) (rest : List ℕ)
    → s < 32
    → slots s n ≡ i ∷ rest
    → (0 < n) × (i ≡ s) × (rest ≡ slots (s + 1) (n - 1))
slots-uncons s zero i rest h e = cc
slots-uncons s (suc n) i rest h e = ground arith

-- `create()` refuses exactly when 31 contexts are in use, and then changes nothing; else it appends
-- the slot that it returns to those to be worked on, and leaves the finished ones alone.
pub create_refines :
    {q : CmdQueue}
    → Inv q
    → let (q', r) = create q in
      let used = length (finished q) + length (active q) in
      ((used ≡ 31) × (r ≡ done none) × (q' ≡ q))
      ⊎ ((used < 31)
          × (r ≡ done (some q.create_pos))
          × (finished q' ≡ finished q)
          × (active q' ≡ active q ++ q.create_pos ∷ []))
create_refines {q} v = ground (
  arith,
  create_lem v,
  length-slots q.destruct_pos (dist q.destruct_pos q.working_pos),
  length-slots q.working_pos (dist q.working_pos q.create_pos),
  slots_last q.working_pos (dist q.working_pos (wrap_around (q.create_pos + 1)))
      (dist q.working_pos q.create_pos) q.create_pos,
)

-- `working()` is the oldest slot that is to be worked on.
pub working_refines : {q : CmdQueue} → Inv q → working q ≡ head? (active q)
unfolding working
working_refines {q} v = ground (
  arith,
  slots_first q.working_pos (q.working_pos + 1) (dist q.working_pos q.create_pos)
      (dist q.working_pos q.create_pos - 1) v.working_lt,
)

-- `cmd_work_done()` of the oldest slot to be worked on moves it to the end of the finished ones;
-- of any other it throws and changes nothing.
pub cmd_work_done_refines :
    {q : CmdQueue} (i : ℕ)
    → Inv q
    → let (q', r) = cmd_work_done i q in
      ((working q ≡ some i)
        × (r ≡ done tt)
        × (active q ≡ i ∷ active q')
        × (finished q' ≡ finished q ++ i ∷ []))
      ⊎ ((working q ≢ some i) × (r ≡ throws einval) × (q' ≡ q))
unfolding cmd_work_done working is_working
cmd_work_done_refines {q} i v = ground (
  arith,
  slots_first q.working_pos (wrap_around (q.working_pos + 1)) (dist q.working_pos q.create_pos)
      (dist (wrap_around (q.working_pos + 1)) q.create_pos) v.working_lt,
  slots_last q.destruct_pos (dist q.destruct_pos (wrap_around (q.working_pos + 1)))
      (dist q.destruct_pos q.working_pos) q.working_pos,
)

-- `Cmd::destruct()` of the oldest finished slot succeeds and takes it off the finished ones.
pub destruct_refines :
    {q : CmdQueue} (i : ℕ) (rest : List ℕ)
    → Inv q
    → finished q ≡ i ∷ rest
    → let (q', r) = destruct i q in (r ≡ done tt) × (finished q' ≡ rest) × (active q' ≡ active q)
destruct_refines {q} i rest v e = ground (
  arith,
  slots-uncons q.destruct_pos (dist q.destruct_pos q.working_pos) i rest v.destruct_lt e,
  destruct_lem v,
  slots_congr (q.destruct_pos + 1) (wrap_around (q.destruct_pos + 1))
      (dist (wrap_around (q.destruct_pos + 1)) q.working_pos),
)

num_work_from_lem :
    (fuel w c cnt : ℕ)
    → w < 32
    → c < 32
    → dist w c < fuel
    → num_work_from fuel w c cnt ≡ some (cnt + dist w c)
unfolding num_work_from
num_work_from_lem zero w c cnt hw hc h = absurd (omega arith)
num_work_from_lem (suc fuel) w c cnt hw hc h =
    ground (arith, num_work_from_lem fuel (wrap_around (w + 1)) c (cnt + 1))

-- The loop of `num_work()` ends within 32 rounds, with the number of slots to be worked on.
pub num_work_lem : {q : CmdQueue} → Inv q → num_work q ≡ some (length (active q))
unfolding num_work
num_work_lem {q} v = ground (
  arith,
  num_work_from_lem 32 q.working_pos q.create_pos 0 v.working_lt v.create_lt,
  length-slots q.working_pos (dist q.working_pos q.create_pos),
)
