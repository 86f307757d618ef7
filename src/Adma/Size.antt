-- ===== src/Adma/Size.antt =====
-- The sizes that bound a request, Device::max_size() of server/src/device.h and
-- adma2_desc_mem_size() of server/src/drv_sdhci-impl.h, and the table that they have to fill.
use emmc_driver.Base.{
  ℕ, zero, suc, ◌*◌, ◌/◌, ◌^◌, ◌≤◌, ◌<◌, Bool, List, [], ◌∷◌, arith, if◌then◌else◌, length,
}
use emmc_driver.Cmd.{Block}
use emmc_driver.Adma.{block_size, adma2_desc_mem_size, max_size}
use emmc_driver.Adma.Region.{needed}
use emmc_driver.Adma.Blocks.{needed_all}

div_half : (req n : ℕ) → 2 ≤ n → req / n ≤ req / 2
div_half req n h = grind arith

-- every block of a request within the size of a segment
abbrev pub Within : ℕ → List Block → Type 0
Within m [] = Unit {0}
Within m (b ∷ bs) = (block_size b ≤ m) × Within m bs

needed_all_le :
    (m k : ℕ) (bs : List Block) → Within m bs → needed m ≤ k → needed_all bs ≤ length bs * k
needed_all_le m k [] w h = omega arith
needed_all_le m k (b ∷ bs) w h = grind (arith, w.0, needed_all_le m k bs w.1 h)

-- Sdhci::max_inout_req_size(): as many blocks as the 16-bit block counter can take
abbrev pub max_inout_req_size : ℕ
max_inout_req_size = 65535 * 2 ^ 9

-- Without a bounce buffer, the table that `adma2_desc_mem_size()` reserves has room for the
-- descriptors that any request needs with at most `max_seg` segments of at most `max_size()` bytes.
pub table_suffices :
    (adma2_64 : Bool) (max_seg : ℕ) (bs : List Block)
    → 0 < max_seg
    → length bs ≤ max_seg
    → Within (max_size max_inout_req_size max_seg) bs
    → needed_all bs
      ≤ adma2_desc_mem_size adma2_64 max_inout_req_size max_seg / (if adma2_64 then 16 else 8)
unfolding max_size adma2_desc_mem_size
table_suffices adma2_64 zero bs p l w = absurd (omega arith)
table_suffices adma2_64 (suc zero) bs p l w =
    ground (arith, needed_all_le (max_size max_inout_req_size 1) 1024 bs w (omega arith))
table_suffices adma2_64 (suc (suc k)) bs p l w = ground (
  arith,
  needed_all_le (max_size max_inout_req_size (suc (suc k))) 512 bs w
      (omega (arith, div_half max_inout_req_size (suc (suc k)) (omega arith))),
)
