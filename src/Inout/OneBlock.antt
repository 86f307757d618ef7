-- ===== src/Inout/OneBlock.antt =====
-- One block of a request without ADMA2: the commands that transfer it, one after the other.
use emmc_driver.Base.{
  ℕ, suc, ◌+◌, ◌*◌, ◌≤◌, ◌≡◌, refl, ◌∙◌, ◌≢◌, inl, inr, true, false, List, ◌∷◌, arith, ◌==◌, length,
  Bool-cases,
}
use emmc_driver.Cmd.{Cmd, Block, success, reinit_inout_nodata, reinit_inout_data}
use emmc_driver.Inout.{
  Conf, advance, follow, transfer_block_sdma, handle_irq_inout_sdma, complete, cmd_multiple,
  cmd_stop, address,
}
use emmc_driver.Inout.Commands.{commands, total, all_success, finished_with}
use emmc_driver.Inout.Between.{
  Between, sent_single, sent_count, Smaller, follow_last, transferred-Between, follow_more,
}

pub follow_single :
    {cf : Conf} (fuel : ℕ) (c : Cmd) (b : Block) (bs : List Block)
    → cf.dma_adma2 ≡ false
    → c.blocks ≡ b ∷ bs
    → b.num_sectors ≡ 1
    → Between cf c
    → 2 * length bs + 1 ≤ fuel
    → Smaller cf bs
    → follow (suc fuel) cf all_success (transfer_block_sdma cf c) ≡ finished_with cf c
unfolding transfer_block_sdma commands total reinit_inout_data
follow_single {cf} fuel c b bs a e n w le ih =
    follow_more cf fuel (sent_single cf c) (ground arith) (
      follow_last fuel (complete (sent_single cf c) success) b bs a (λ h. ground arith) e refl
        (transferred-Between w (ground arith) w.no_cmd12 refl refl refl) le ih)
    ∙ ground arith

pub follow_count :
    {cf : Conf} (fuel : ℕ) (c : Cmd) (b : Block) (bs : List Block)
    → cf.dma_adma2 ≡ false
    → cf.has_cmd23 ≡ true
    → c.blocks ≡ b ∷ bs
    → (b.num_sectors ≢ 0) × (b.num_sectors ≢ 1)
    → Between cf c
    → 2 * length bs + 1 ≤ fuel
    → Smaller cf bs
    → follow (suc (suc fuel)) cf all_success (transfer_block_sdma cf c) ≡ finished_with cf c
unfolding transfer_block_sdma commands total reinit_inout_data reinit_inout_nodata advance
    handle_irq_inout_sdma
follow_count {cf} fuel c b bs a h23 e n w le ih =
    follow_more cf (suc fuel) y (ground (arith, w.not_cmd23)) (
      follow_more cf fuel x (ground (arith, w.no_cmd12)) (
        follow_last fuel (complete x success) b bs a (λ h. ground arith) e refl
          (transferred-Between w (ground arith) w.no_cmd12 refl refl refl) le ih))
    ∙ ground (arith, w.not_cmd23)
  where
    y : Cmd
    y = sent_count c b

    x : Cmd
    x =
        reinit_inout_data (complete y success) (cmd_multiple c) (address cf c) b.num_sectors 512
          false

-- Without CMD23: the controller sends CMD12 itself, or the driver does.
pub follow_auto_stop :
    {cf : Conf} (fuel : ℕ) (c : Cmd) (b : Block) (bs : List Block)
    → cf.dma_adma2 ≡ false
    → (cf.has_cmd23 ≡ false) × (cf.auto_cmd12 ≡ true)
    → c.blocks ≡ b ∷ bs
    → (b.num_sectors ≢ 0) × (b.num_sectors ≢ 1)
    → Between cf c
    → 2 * length bs + 1 ≤ fuel
    → Smaller cf bs
    → follow (suc fuel) cf all_success (transfer_block_sdma cf c) ≡ finished_with cf c
unfolding transfer_block_sdma commands total reinit_inout_data
follow_auto_stop {cf} fuel c b bs a h e n w le ih =
    follow_more cf fuel x (ground arith) (
      follow_last fuel (complete x success) b bs a (λ h. ground arith) e refl
        (transferred-Between w (ground arith) (ground arith) refl refl refl) le ih)
    ∙ ground arith
  where
    y : Cmd
    y = reinit_inout_data c (cmd_multiple c) (address cf c) b.num_sectors 512 false

    x : Cmd
    x = record y { flags = record (y.flags) { inout_cmd12 = true } }

pub follow_stop :
    {cf : Conf} (fuel : ℕ) (c : Cmd) (b : Block) (bs : List Block)
    → cf.dma_adma2 ≡ false
    → (cf.has_cmd23 ≡ false) × (cf.auto_cmd12 ≡ false)
    → c.blocks ≡ b ∷ bs
    → (b.num_sectors ≢ 0) × (b.num_sectors ≢ 1)
    → Between cf c
    → 2 * length bs + 1 ≤ fuel
    → Smaller cf bs
    → follow (suc (suc fuel)) cf all_success (transfer_block_sdma cf c) ≡ finished_with cf c
unfolding transfer_block_sdma commands total reinit_inout_data reinit_inout_nodata advance
follow_stop {cf} fuel c b bs a h e n w le ih =
    follow_more cf (suc fuel) x (ground arith) (
      follow_more cf fuel z (ground arith) (
        follow_last fuel (complete z success) b bs a (λ h. refl) e refl
          (transferred-Between w (ground arith) refl refl refl refl) le ih))
    ∙ ground arith
  where
    y : Cmd
    y = reinit_inout_data c (cmd_multiple c) (address cf c) b.num_sectors 512 false

    x : Cmd
    x = record y { flags = record (y.flags) { inout_cmd12 = true } }

    z : Cmd
    z =
        reinit_inout_nodata
          (record x {
            status = success;
            flags = record (x.flags) { inout_cmd12 = false };
            status_cmd12 = success;
          })
          (cmd_stop c) 0

-- One block, by the way that the device and the controller let it go.
pub follow_block :
    {cf : Conf} (fuel : ℕ) (c : Cmd) (b : Block) (bs : List Block)
    → cf.dma_adma2 ≡ false
    → c.blocks ≡ b ∷ bs
    → b.num_sectors ≢ 0
    → Between cf c
    → 2 * length bs + 1 ≤ fuel
    → Smaller cf bs
    → follow (suc (suc fuel)) cf all_success (transfer_block_sdma cf c) ≡ finished_with cf c
follow_block {cf} fuel c b bs a e n w le ih = elim (Bool-cases (b.num_sectors == 1)) [
  | inl one ↦ follow_single (suc fuel) c b bs a e (ground arith) w (omega arith) ih
  | inr more ↦ elim (Bool-cases cf.has_cmd23) [
    | inl h23 ↦ follow_count fuel c b bs a h23 e (n, ground arith) w le ih
    | inr no23 ↦ elim (Bool-cases cf.auto_cmd12) [
      | inl h12 ↦
          follow_auto_stop (suc fuel) c b bs a (no23, h12) e (n, ground arith) w (omega arith) ih
      | inr no12 ↦ follow_stop fuel c b bs a (no23, no12) e (n, ground arith) w le ih
    ]
  ]
]
