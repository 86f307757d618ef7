-- ===== src/Sdhci/Submit/Size.antt =====
-- cmd_submit() of server/src/drv_sdhci-impl.h: the size of the data that the controller is told.
use emmc_driver.Base.{
  ℕ, Bool, true, false, ◌^◌, ◌%◌, List, [], ◌∷◌, ◌++◌, Option, none, some, Outcome, done, throws,
  ◌≡◌, ◌≢◌, refl, ap, ◌∙◌, sym, arith, is_done, if◌then◌else◌, Bool-cases, inl, inr, ◌==◌,
}
use emmc_driver.Cmd.{Cmd, is_ready}
use emmc_driver.Sdhci.{SdhciType, plain, usdhc, iproc, bcm2711, is_usdhc, is_tuning}
use emmc_driver.Sdhci.Submit.{SubmitConf, MixCtrl, Effect, blk_att, blk_size, Prepared, no_dma_addr}
use emmc_driver.Sdhci.Submit.Prepare.{
  cmd_submit_prepare_dma, prepare_memory, selected, select_auto_cmd12,
}
use emmc_driver.Sdhci.Submit.Send.{
  cmd_submit, cmd_submit_handle_tuning, cmd_submit_set_block_size_and_count, handle_tuning, tune,
  set_dma, send, after_prepare, Submitted, final_writes, fits, blksize_bits, write_size,
  tuning_size, command_fields,
}
use emmc_driver.Sdhci.Submit.Kept.{Keeps, prepare-Keeps, handle_tuning-Keeps, set_dma_addr-Keeps}

abbrev block_step : Option (ℕ × ℕ) → Effect → Option (ℕ × ℕ)
block_step o (blk_att count size) = some (count, size)
block_step o (blk_size count size bndry) = some (count, size)
block_step o e = o

-- The number and the size of blocks that the controller holds after what is written.
abbrev pub block_regs : Option (ℕ × ℕ) → List Effect → Option (ℕ × ℕ)
block_regs o [] = o
block_regs o (e ∷ es) = block_regs (block_step o e) es

block_regs-++ :
    (o : Option (ℕ × ℕ)) (es fs : List Effect)
    → block_regs o (es ++ fs) ≡ block_regs (block_regs o es) fs
block_regs-++ o [] fs = refl
block_regs-++ o (e ∷ es) fs = block_regs-++ (block_step o e) es fs

-- a condition on what a call leaves where it is done
abbrev WhereDone : (Prepared → Type 0) → Prepared × Outcome (Unit {0}) → Type 0
WhereDone P (p, r) = r ≡ done tt → P p

abbrev Addressed : SubmitConf → Prepared → Type 0
Addressed cf p = p.dma_addr ≡ cf.adma2_desc_phys

abbrev Sized : Cmd → Prepared → Type 0
Sized c p = block_regs none p.effects ≡ some (c.blockcnt, c.blocksize)

if-true :
    {A : Type 0} (P : A → Type 0) {b : Bool} (x y : A) → b ≡ true → P x → P (if b then x else y)
if-true P x y e h = rw e h

memory-Addressed :
    (cf : SubmitConf) (p : Prepared)
    → cf.adma2 ≡ true
    → WhereDone (Addressed cf) (prepare_memory cf p)
memory-Addressed cf p a = rw a (λ e. rw (ap is_done e) refl)

selected-Addressed :
    (cf : SubmitConf) (h : Prepared × Outcome (Unit {0}))
    → WhereDone (Addressed cf) h
    → WhereDone (Addressed cf) (selected cf h)
selected-Addressed cf (p, throws e) h r = absurd (ground arith)
selected-Addressed cf (p, done u) h r = elim (Bool-cases (is_usdhc cf.type)) [
  | inl y ↦ rw y (h refl)
  | inr n ↦ rw n (h refl)
]

prepare-Addressed :
    (cf : SubmitConf) (p : Prepared)
    → cf.adma2 ≡ true
    → p.cmd.flags.has_data ≡ true
    → WhereDone (Addressed cf) (cmd_submit_prepare_dma cf p)
unfolding cmd_submit_prepare_dma
prepare-Addressed cf p a d = if-true (WhereDone (Addressed cf)) _ _ d (
    selected-Addressed cf (prepare_memory cf (select_auto_cmd12 cf p))
      (memory-Addressed cf (select_auto_cmd12 cf p) a))

tune-dma_addr : (type : SdhciType) (n : ℕ) (p : Prepared) → (tune type n p).dma_addr ≡ p.dma_addr
tune-dma_addr plain n p = refl
tune-dma_addr usdhc n p = refl
tune-dma_addr iproc n p = refl
tune-dma_addr bcm2711 n p = refl

handle_tuning-dma_addr :
    (cf : SubmitConf) (p : Prepared) → (handle_tuning cf p).dma_addr ≡ p.dma_addr
unfolding cmd_submit_handle_tuning
handle_tuning-dma_addr cf p = elim (Bool-cases (is_tuning p.cmd)) [
  | inl y ↦ rw y (tune-dma_addr cf.type (tuning_size p.cmd) p)
  | inr n ↦ rw n refl
]

write_size-step :
    (type : SdhciType) (o : Option (ℕ × ℕ)) (m n : ℕ)
    → block_step o (write_size type m n) ≡ some (m, n)
write_size-step plain o m n = refl
write_size-step usdhc o m n = refl
write_size-step iproc o m n = refl
write_size-step bcm2711 o m n = refl

fits-eq : (bits n : ℕ) → fits bits n ≡ true → n % 2 ^ bits ≡ n
fits-eq bits n h = ground arith

set_size-Sized :
    (cf : SubmitConf) (c : Cmd) (p : Prepared)
    → Keeps c p
    → WhereDone (Sized c) (cmd_submit_set_block_size_and_count cf p)
unfolding cmd_submit_set_block_size_and_count
set_size-Sized cf c p k = elim (Bool-cases (fits 16 p.cmd.blockcnt)) [
  | inr n ↦ rw n (λ r. absurd (ground arith))
  | inl y ↦ elim (Bool-cases (fits (blksize_bits cf.type) p.cmd.blocksize)) [
    | inr n ↦ rw (y, n) (λ r. absurd (ground arith))
    | inl y' ↦
        rw (y, y')
          (λ r.
            block_regs-++ none p.effects (
              write_size cf.type (p.cmd.blockcnt % 2 ^ 16)
                (p.cmd.blocksize % 2 ^ blksize_bits cf.type)
              ∷ [])
            ∙ write_size-step cf.type (block_regs none p.effects) (p.cmd.blockcnt % 2 ^ 16)
                (p.cmd.blocksize % 2 ^ blksize_bits cf.type)
            ∙ rw
                (
                  fits-eq 16 p.cmd.blockcnt y,
                  fits-eq (blksize_bits cf.type) p.cmd.blocksize y',
                  k.blockcnt,
                  k.blocksize,
                )
                refl)
  ]
]

set_dma-Sized :
    (cf : SubmitConf) (c : Cmd) (p : Prepared)
    → Keeps c p
    → Addressed cf p
    → cf.adma2_desc_phys ≢ no_dma_addr
    → WhereDone (Sized c) (set_dma cf p)
set_dma-Sized cf c p k a n =
    rw (not_none p.dma_addr (λ e. n (sym a ∙ e)))
      (set_size-Sized cf c _ (set_dma_addr-Keeps cf _ c p k))
  where
    not_none : (m : ℕ) → m ≢ no_dma_addr → (m == no_dma_addr) ≡ false
    not_none m h = ground arith

final_writes-regs :
    (b : Bool) (type : SdhciType) (p : Prepared) (o : Option (ℕ × ℕ))
    → block_regs o (final_writes b type p) ≡ o
final_writes-regs true type p o = refl
final_writes-regs false type p o = refl

abbrev SubmittedSize : Cmd → Submitted → Type 0
SubmittedSize c (c', es, r) = r ≡ done tt → block_regs none es ≡ some (c.blockcnt, c.blocksize)

send-Sized :
    (cf : SubmitConf) (c : Cmd) (h : Prepared × Outcome (Unit {0}))
    → WhereDone (Sized c) h
    → SubmittedSize c (send cf h)
send-Sized cf c (p, throws e) s r = absurd (ground arith)
send-Sized cf c (p, done u) s r =
    block_regs-++ none p.effects (final_writes (is_usdhc cf.type) cf.type p)
    ∙ final_writes-regs (is_usdhc cf.type) cf.type p (block_regs none p.effects)
    ∙ s refl

after_prepare-Sized :
    (cf : SubmitConf) (c : Cmd) (h : Prepared × Outcome (Unit {0}))
    → Keeps c h.0
    → WhereDone (Addressed cf) h
    → cf.adma2_desc_phys ≢ no_dma_addr
    → SubmittedSize c (after_prepare cf h)
after_prepare-Sized cf c (p, throws e) k a n r = absurd (ground arith)
after_prepare-Sized cf c (p, done u) k a n r =
    send-Sized cf c (set_dma cf (handle_tuning cf p))
      (set_dma-Sized cf c (handle_tuning cf p) (handle_tuning-Keeps cf c p k)
        (handle_tuning-dma_addr cf p ∙ a refl) n)
      r

-- Where `cmd_submit()` is done with a command with data, in ADMA2 mode and with a descriptor table
-- at a real address, the controller holds the number and the size of the blocks of that command:
-- neither was cut off by its register field.
pub block_regs-cmd_submit :
    (cf : SubmitConf) (mc : MixCtrl) (c : Cmd)
    → cf.adma2 ≡ true
    → cf.adma2_desc_phys ≢ no_dma_addr
    → c.flags.has_data ≡ true
    → (cmd_submit cf mc c).2 ≡ done tt
    → block_regs none (cmd_submit cf mc c).1 ≡ some (c.blockcnt, c.blocksize)
unfolding cmd_submit command_fields
block_regs-cmd_submit cf mc c a n d = elim (Bool-cases (is_ready c.status)) [
  | inl y ↦ rw y (
      after_prepare-Sized cf c _
        (prepare-Keeps cf c _ (record {
          status = refl;
          enqueued = refl;
          arg = refl;
          blockcnt = refl;
          blocksize = refl;
          idx = refl;
          quiet = refl;
        }))
        (prepare-Addressed cf _ a d) n)
  | inr m ↦ rw m (λ r. absurd (ground arith))
]
