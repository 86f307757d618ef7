-- ===== src/Sdhci/Submit/Kept.antt =====
-- The helpers of cmd_submit() of server/src/drv_sdhci-impl.h: what they leave of the command.
use emmc_driver.Base.{
  not, ◌%◌, ◌^◌, ℕ, Bool, true, false, ◌&&◌, List, [], ◌∷◌, ◌++◌, ◌≡◌, refl, arith, Outcome, done,
  throws, if◌then◌else◌,
}
use emmc_driver.Cmd.{Block, Cmd, cmd_idx}
use emmc_driver.Adma.{Table}
use emmc_driver.Sdhci.{is_tuning, plain, usdhc, iproc, bcm2711, SdhciType, is_usdhc}
use emmc_driver.Sdhci.Submit.{
  wtmk_lvl, blk_size, blk_att, execute_tuning, tune_on, wait_data_line, cmd_arg2, adma_sys_addr_lo,
  adma_sys_addr_hi, ds_addr, SubmitConf, Effect, xfer_typ, cmd_arg, Prepared, also, copy_in,
  write_descs,
}
use emmc_driver.Sdhci.Submit.Prepare.{
  cmd_submit_prepare_dma, select_data, select_auto_cmd12, selected, prepare_memory, prepare_adma2,
  prepare_sdma, at_phys, set_descs, from_bounce_buffer,
}
use emmc_driver.Sdhci.Submit.Send.{
  fits, blksize_bits, write_size, cmd_submit_handle_tuning, cmd_submit_set_dma_addr,
  cmd_submit_set_block_size_and_count, tune, tuning_size, set_auto_cmd23, set_auto_cmd23_xt,
  handle_tuning, set_dma,
}

pub split_and : (a b : Bool) → (a && b) ≡ true → (a ≡ true) × (b ≡ true)
split_and true b h = (refl, h)
split_and false b h = (h, absurd (ground arith))

abbrev pub is_quiet : Effect → Bool
is_quiet (cmd_arg n) = false
is_quiet (xfer_typ x) = false
is_quiet e = true

abbrev pub quiet : List Effect → Bool
quiet [] = true
quiet (e ∷ es) = is_quiet e && quiet es

quiet-++ : (es fs : List Effect) → quiet es ≡ true → quiet fs ≡ true → quiet (es ++ fs) ≡ true
quiet-++ [] fs q r = r
quiet-++ (e ∷ es) fs q r =
    let (q1, q2) = split_and (is_quiet e) (quiet es) q in rw (q1, quiet-++ es fs q2 r) refl

-- What the helpers leave of a command, with the command index and the effects so far.
pub record Kept (c c' : Cmd) (n : ℕ) (es : List Effect) : Type 0 where
  pub status : c'.status ≡ c.status
  pub enqueued : c'.flags.enqueued ≡ c.flags.enqueued
  pub arg : c'.arg ≡ c.arg
  pub blockcnt : c'.blockcnt ≡ c.blockcnt
  pub blocksize : c'.blocksize ≡ c.blocksize
  pub idx : n ≡ cmd_idx c
  pub quiet : quiet es ≡ true

abbrev pub Keeps : Cmd → Prepared → Type 0
Keeps c p = Kept c p.cmd p.xt.cmdinx p.effects

abbrev KeepsCmd : Cmd → Prepared × Outcome (Unit {0}) → Type 0
KeepsCmd c (p, r) = Keeps c p

pub if-elim :
    {A : Type 0} (P : A → Type 0) (b : Bool) (x y : A) → P x → P y → P (if b then x else y)
if-elim P true x y px py = px
if-elim P false x y px py = py

select_data-Keeps :
    (cf : SubmitConf) (c : Cmd) (p : Prepared) → Keeps c p → Keeps c (select_data cf p)
select_data-Keeps cf c p k = if-elim (Keeps c) (is_usdhc cf.type) _ _ k k

also-Keeps :
    (c : Cmd) (p : Prepared) (es : List Effect) → quiet es ≡ true → Keeps c p → Keeps c (also p es)
also-Keeps c p es q k = record {
  status = k.status;
  enqueued = k.enqueued;
  arg = k.arg;
  blockcnt = k.blockcnt;
  blocksize = k.blocksize;
  idx = k.idx;
  quiet = quiet-++ p.effects es k.quiet q;
}

at_phys-Keeps : (c : Cmd) (p : Prepared) (a : ℕ) → Keeps c p → Keeps c (at_phys p a)
at_phys-Keeps c p a k = record {
  status = k.status;
  enqueued = k.enqueued;
  arg = k.arg;
  blockcnt = k.blockcnt;
  blocksize = k.blocksize;
  idx = k.idx;
  quiet = k.quiet;
}

bounce-Keeps :
    (c : Cmd) (p : Prepared) (b : Bool)
    → Keeps c p
    → Keeps c (record p { cmd = from_bounce_buffer p.cmd b })
bounce-Keeps c p true k = record {
  status = k.status;
  enqueued = k.enqueued;
  arg = k.arg;
  blockcnt = k.blockcnt;
  blocksize = k.blocksize;
  idx = k.idx;
  quiet = k.quiet;
}
bounce-Keeps c p false k = k

set_descs-Keeps :
    (c : Cmd) (p : Prepared) (t : Table × Outcome (Unit {0}))
    → Keeps c p
    → Keeps c (set_descs p.cmd p t).0
set_descs-Keeps c p (t, throws e) k =
    also-Keeps c p (copy_in t.copies ∷ write_descs t.descs ∷ []) refl k
set_descs-Keeps c p (t, done u) k =
    bounce-Keeps c (also p (copy_in t.copies ∷ write_descs t.descs ∷ [])) _
      (also-Keeps c p (copy_in t.copies ∷ write_descs t.descs ∷ []) refl k)

prepare_adma2-Keeps :
    (cf : SubmitConf) (c : Cmd) (bs : List Block) (p : Prepared)
    → Keeps c p
    → Keeps c (prepare_adma2 cf bs p).0
prepare_adma2-Keeps cf c [] p k = also-Keeps c p (write_descs _ ∷ []) refl k
prepare_adma2-Keeps cf c (b ∷ bs) p k = set_descs-Keeps c p _ k

prepare_sdma-Keeps :
    (cf : SubmitConf) (c : Cmd) (bs : List Block) (p : Prepared)
    → Keeps c p
    → Keeps c (prepare_sdma cf bs p)
prepare_sdma-Keeps cf c [] p k = k
prepare_sdma-Keeps cf c (b ∷ bs) p k =
    if-elim (Keeps c) _ _ _
      (if-elim (Keeps c) _ _ _
        (at_phys-Keeps c (record p { cmd = from_bounce_buffer p.cmd true }) cf.adma.bb_phys
          (bounce-Keeps c p true k))
        (at_phys-Keeps c (also p (copy_in _ ∷ [])) cf.adma.bb_phys
          (also-Keeps c p (copy_in _ ∷ []) refl k)))
      (at_phys-Keeps c p b.dma_addr k)

select_auto_cmd12-Keeps :
    (cf : SubmitConf) (c : Cmd) (p : Prepared) → Keeps c p → Keeps c (select_auto_cmd12 cf p)
select_auto_cmd12-Keeps cf c p k =
    if-elim (Keeps c) (is_usdhc cf.type) _ _ (also-Keeps c p (wtmk_lvl 64 ∷ []) refl k) k

selected-Keeps :
    (cf : SubmitConf) (c : Cmd) (h : Prepared × Outcome (Unit {0}))
    → Keeps c h.0
    → Keeps c (selected cf h).0
selected-Keeps cf c (p, throws e) k = k
selected-Keeps cf c (p, done u) k = select_data-Keeps cf c p k

prepare_memory-Keeps :
    (cf : SubmitConf) (c : Cmd) (p : Prepared) → Keeps c p → Keeps c (prepare_memory cf p).0
prepare_memory-Keeps cf c p k =
    if-elim (KeepsCmd c) cf.adma2 _ _
      (if-elim (Keeps c) _ _ _ (prepare_adma2-Keeps cf c p.cmd.blocks p k)
        (prepare_adma2-Keeps cf c p.cmd.blocks p k))
      (prepare_sdma-Keeps cf c p.cmd.blocks p k)

pub prepare-Keeps :
    (cf : SubmitConf) (c : Cmd) (p : Prepared) → Keeps c p → Keeps c (cmd_submit_prepare_dma cf p).0
unfolding cmd_submit_prepare_dma
prepare-Keeps cf c p k =
    if-elim (KeepsCmd c) p.cmd.flags.has_data _ _
      (selected-Keeps cf c _
        (prepare_memory-Keeps cf c (select_auto_cmd12 cf p) (select_auto_cmd12-Keeps cf c p k)))
      (if-elim (Keeps c) (is_usdhc cf.type) _ _ k k)

tune-Keeps :
    (type : SdhciType) (n : ℕ) (c : Cmd) (p : Prepared) → Keeps c p → Keeps c (tune type n p)
tune-Keeps plain n c p k = also-Keeps c p (blk_size 0 n 7 ∷ wtmk_lvl n ∷ []) refl k
tune-Keeps usdhc n c p k = also-Keeps c p (blk_att 1 n ∷ wtmk_lvl n ∷ execute_tuning ∷ []) refl k
tune-Keeps iproc n c p k = also-Keeps c p (blk_size 0 n 7 ∷ wtmk_lvl n ∷ tune_on ∷ []) refl k
tune-Keeps bcm2711 n c p k = also-Keeps c p (blk_size 0 n 7 ∷ wtmk_lvl n ∷ tune_on ∷ []) refl k

pub handle_tuning-Keeps :
    (cf : SubmitConf) (c : Cmd) (p : Prepared) → Keeps c p → Keeps c (handle_tuning cf p)
unfolding cmd_submit_handle_tuning
handle_tuning-Keeps cf c p k =
    if-elim (Keeps c) (is_tuning p.cmd) _ _ (tune-Keeps cf.type (tuning_size p.cmd) c p k) k

set_auto_cmd23_xt-Keeps :
    (b : Bool) (c : Cmd) (p : Prepared) → Keeps c p → Keeps c (set_auto_cmd23_xt b p)
set_auto_cmd23_xt-Keeps b c p k =
    if-elim (Keeps c) b _ _ (also-Keeps c p (cmd_arg2 p.cmd.blockcnt ∷ []) refl k) k

set_auto_cmd23-Keeps :
    (type : SdhciType) (b : Bool) (c : Cmd) (p : Prepared)
    → Keeps c p
    → Keeps c (set_auto_cmd23 type b p)
set_auto_cmd23-Keeps plain b c p k = k
set_auto_cmd23-Keeps usdhc b c p k =
    if-elim (Keeps c) b _ _ (also-Keeps c p (wait_data_line ∷ cmd_arg2 p.cmd.blockcnt ∷ []) refl k)
      k
set_auto_cmd23-Keeps iproc b c p k = set_auto_cmd23_xt-Keeps b c p k
set_auto_cmd23-Keeps bcm2711 b c p k = set_auto_cmd23_xt-Keeps b c p k

pub set_dma_addr-Keeps :
    (cf : SubmitConf) (addr : ℕ) (c : Cmd) (p : Prepared)
    → Keeps c p
    → Keeps c (cmd_submit_set_dma_addr cf addr p)
unfolding cmd_submit_set_dma_addr
set_dma_addr-Keeps cf addr c p k =
    if-elim (Keeps c) cf.adma2 _ _
      (also-Keeps c (set_auto_cmd23 cf.type p.cmd.flags.auto_cmd23 p)
        (adma_sys_addr_lo _ ∷ adma_sys_addr_hi _ ∷ []) refl
        (set_auto_cmd23-Keeps cf.type p.cmd.flags.auto_cmd23 c p k))
      (also-Keeps c p _
        (if-elim (λ es. quiet (es ++ ds_addr (addr % 2 ^ 32) ∷ []) ≡ true) (is_usdhc cf.type) _ _
          refl refl)
        k)

write_size-quiet : (type : SdhciType) (m n : ℕ) → quiet (write_size type m n ∷ []) ≡ true
write_size-quiet plain m n = refl
write_size-quiet usdhc m n = refl
write_size-quiet iproc m n = refl
write_size-quiet bcm2711 m n = refl

set_size-Keeps :
    (cf : SubmitConf) (c : Cmd) (p : Prepared)
    → Keeps c p
    → Keeps c (cmd_submit_set_block_size_and_count cf p).0
unfolding cmd_submit_set_block_size_and_count
set_size-Keeps cf c p k = if-elim (KeepsCmd c) (not (fits 16 p.cmd.blockcnt)) _ _ k (
    if-elim (KeepsCmd c) (not (fits (blksize_bits cf.type) p.cmd.blocksize)) _ _ k (
      also-Keeps c p (write_size cf.type _ _ ∷ [])
        (write_size-quiet cf.type (p.cmd.blockcnt % 2 ^ 16)
          (p.cmd.blocksize % 2 ^ blksize_bits cf.type))
        k))

pub set_dma-Keeps :
    (cf : SubmitConf) (c : Cmd) (p : Prepared) → Keeps c p → Keeps c (set_dma cf p).0
set_dma-Keeps cf c p k =
    if-elim (KeepsCmd c) _ _ _ k (set_size-Keeps cf c _ (set_dma_addr-Keeps cf _ c p k))
