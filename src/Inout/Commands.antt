-- ===== src/Inout/Commands.antt =====
-- The commands that a request without ADMA2 is meant to become: the specification of
-- transfer_block_sdma() and handle_irq_inout() of server/src/device-impl.h.
use emmc_driver.Base.{
  ℕ, ◌+◌, ◌*◌, ◌%◌, ◌^◌, ◌<◌, ◌≡◌, refl, ◌≢◌, ◌⊎◌, inl, inr, Bool, List, [], ◌∷◌, ◌++◌, Option,
  none, some, arith, ◌==◌, if◌then◌else◌, length, Bool-cases,
}
use emmc_driver.Mmc.{
  cmd12_stop_transmission_rd, cmd12_stop_transmission_wr, cmd17_read_single_block,
  cmd18_read_multiple_block, cmd23_set_block_count, cmd24_write_block, cmd25_write_multiple_block,
}
use emmc_driver.Cmd.{Cmd, Block, Status, success}
use emmc_driver.Inout.{Conf, Reply, Issue, skip_empty}

-- The specification: the commands that transfer `b`, from `sector` of the medium on.
abbrev pub block_commands : Conf → Bool → ℕ → Block → List Issue
block_commands cf rd sector b =
    if b.num_sectors == 1
    then record { cmd = single; arg = address; count = 1 } ∷ []
    else if cf.has_cmd23
    then record { cmd = cmd23_set_block_count; arg = b.num_sectors % 2 ^ 16; count = 0 }
      ∷ record { cmd = multiple; arg = address; count = b.num_sectors }
      ∷ []
    else record { cmd = multiple; arg = address; count = b.num_sectors }
      ∷ (if cf.auto_cmd12 then [] else record { cmd = stop; arg = 0; count = 0 } ∷ [])
  where
    address : ℕ
    address = (sector * cf.addr_mult) % 2 ^ 32

    single : ℕ
    single = if rd then cmd17_read_single_block else cmd24_write_block

    multiple : ℕ
    multiple = if rd then cmd18_read_multiple_block else cmd25_write_multiple_block

    stop : ℕ
    stop = if rd then cmd12_stop_transmission_rd else cmd12_stop_transmission_wr

-- All blocks but the empty ones, one after the other on the medium.
unfoldable pub commands : Conf → Bool → ℕ → List Block → List Issue
commands cf rd sector [] = []
commands cf rd sector (b ∷ bs) =
    let rest = commands cf rd (sector + b.num_sectors) bs in
    if b.num_sectors == 0 then rest else block_commands cf rd sector b ++ rest

unfoldable pub total : List Block → ℕ
total [] = 0
total (b ∷ bs) = b.num_sectors + total bs

pub total-skip_empty : (bs : List Block) → total (skip_empty bs) ≡ total bs
unfolding total skip_empty
total-skip_empty [] = refl
total-skip_empty (b ∷ bs) = ground (arith, total-skip_empty bs)

pub commands-skip_empty :
    (cf : Conf) (rd : Bool) (sector : ℕ) (bs : List Block)
    → commands cf rd sector (skip_empty bs) ≡ commands cf rd sector bs
unfolding commands skip_empty
commands-skip_empty cf rd sector [] = refl
commands-skip_empty cf rd sector (b ∷ bs) =
    ground (arith, commands-skip_empty cf rd (sector + b.num_sectors) bs)

abbrev pub all_success : ℕ → Status
all_success n = success

-- What is expected of the rest of a request.
abbrev pub finished_with : Conf → Cmd → Option (List Issue × List Reply)
finished_with cf c = some (
  commands cf c.flags.inout_read c.sector c.blocks,
  record { error_code = none; bytes = (c.sectors_done + total c.blocks) * 512 } ∷ [],
)

pub skip_empty-cases :
    (bs : List Block)
    → (skip_empty bs ≡ [])
      ⊎ ((b : Block) × (rest : List Block) × (skip_empty bs ≡ b ∷ rest)
          × (b.num_sectors ≢ 0)
          × (length rest < length bs))
unfolding skip_empty
skip_empty-cases [] = inl refl
skip_empty-cases (b ∷ bs) = elim (Bool-cases (b.num_sectors == 0)) [
  | inl yes' ↦ elim (skip_empty-cases bs) [
    | inl e ↦ inl (rw (yes', e) refl)
    | inr (b', rest, e, n, l) ↦ inr (b', rest, rw (yes', e) refl, n, omega arith)
  ]
  | inr no' ↦ inr (b, bs, rw no' refl, ground arith, omega arith)
]
