-- ===== src/Inout/Sdma.antt =====
-- Requests without ADMA2, of which the controller completes every command with success.
use emmc_driver.Base.{
  ℕ, zero, suc, ◌+◌, ◌*◌, ◌^◌, ◌≤◌, ◌<◌, ◌≡◌, refl, ◌∙◌, ◌≢◌, inl, inr, Bool, false, List, [], ◌∷◌,
  none, some, arith, length,
}
use emmc_driver.Cmd.{Cmd, Block, init_inout, reset}
use emmc_driver.Inout.{Conf, start, follow, skip_empty}
use emmc_driver.Inout.Commands.{commands, total, all_success, skip_empty-cases}
use emmc_driver.Inout.Between.{follow-nil, Smaller}
use emmc_driver.Inout.OneBlock.{follow_block}

pub follow_blocks :
    (m : ℕ) (cf : Conf) (bs : List Block) → cf.dma_adma2 ≡ false → length bs ≤ m → Smaller cf bs
follow_blocks m cf bs a lm zero c e le w = absurd (omega arith)
follow_blocks m cf bs a lm (suc zero) c e le w =
    ground (arith, le, follow-nil 1 cf c, e, skip_empty-cases bs)
follow_blocks zero cf bs a lm (suc (suc fuel)) c e le w = elim (skip_empty-cases bs) [
  | inl n ↦ follow-nil (suc (suc fuel)) cf c (e ∙ n)
  | inr (b, rest, q, n, l) ↦ absurd (omega arith)
]
follow_blocks (suc m) cf bs a lm (suc (suc fuel)) c e le w = elim (skip_empty-cases bs) [
  | inl n ↦ follow-nil (suc (suc fuel)) cf c (e ∙ n)
  | inr (b, rest, q, n, l) ↦
      follow_block fuel c b rest a (e ∙ q) n w (omega arith)
        (follow_blocks m cf rest a (omega arith))
]

-- A request without ADMA2 whose first block is not empty, which stays within 32-bit sector numbers,
-- and whose commands the controller completes with success: the commands submitted are those that
-- transfer its blocks one after the other, and the callback is told success and the size of all
-- blocks.
pub inout_sdma_lem :
    (fuel : ℕ) (cf : Conf) (c : Cmd) (sector cb : ℕ) (rd : Bool) (b : Block) (bs : List Block)
    → cf.dma_adma2 ≡ false
    → b.num_sectors ≢ 0
    → sector + total (b ∷ bs) < 2 ^ 32
    → 2 * length (b ∷ bs) + 1 ≤ fuel
    → follow fuel cf all_success (start cf (init_inout c sector (b ∷ bs) (some cb) rd))
      ≡ some (
        commands cf rd sector (b ∷ bs),
        record { error_code = none; bytes = total (b ∷ bs) * 512 } ∷ [],
      )
unfolding start init_inout reset total skip_empty
inout_sdma_lem fuel cf c sector cb rd b bs a n l le = ground (
  arith,
  follow_blocks (length (b ∷ bs)) cf (b ∷ bs) a (omega arith) fuel
      (init_inout c sector (b ∷ bs) (some cb) rd) (ground arith) le
      (record {
        not_cmd23 = refl;
        no_cmd12 = refl;
        sector_lt = ground arith;
        done_lt = ground arith;
      }),
)
