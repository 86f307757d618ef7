-- ===== src/Adma/Bounce.antt =====
-- cmd_fetch_response() of server/src/drv_sdhci-impl.h against adma2_set_descs(): what a read put
-- into the bounce buffer is copied from where the descriptors placed it.
use emmc_driver.Base.{
  ◌⊎◌, inl, inr, Bool, not, ◌||◌, ◌==◌, true, false, ◌+◌, done, ℕ, ◌^◌, ◌≤◌, ◌<◌, ◌≡◌, ◌≢◌, refl,
  ap, ◌∙◌, List, [], ◌∷◌, ◌++◌, arith, if◌then◌else◌,
}
use emmc_driver.Cmd.{Cmd, Block}
use emmc_driver.Mmc.{cmd17_read_single_block, cmd18_read_multiple_block}
use emmc_driver.Adma.{
  Conf, Desc, Copy, fetch_copies, fetch_bounced, block_size, adma2_set_descs, dma_accessible,
  is_nil,
}
use emmc_driver.Adma.Region.{Covers}
use emmc_driver.Adma.Blocks.{
  CoversAll, needed_all, adma2_set_descs_lem, bounced, behind, bounce_copies, Fits, Fits-room,
}

fetch-step :
    (cf : Conf) (offs : ℕ) (b : Block) (bs : List Block)
    → cf.bb_size ≢ 0
    → cf.bb_size < 2 ^ 32
    → behind cf offs b ≤ cf.bb_size
    → fetch_copies cf offs (b ∷ bs)
      ≡ (if bounced cf b
          then record { virt = b.virt_addr; offset = offs; size = block_size b } ∷ []
          else [])
        ++ fetch_copies cf (behind cf offs b) bs
unfolding fetch_copies
fetch-step cf offs b bs n l h = ground arith

-- the copies back are those of the blocks out of reach
fetch_copies_lem :
    (cf : Conf) (offs : ℕ) (bs : List Block)
    → cf.bb_size ≢ 0
    → cf.bb_size < 2 ^ 32
    → Fits cf offs bs
    → fetch_copies cf offs bs ≡ bounce_copies cf offs bs
unfolding fetch_copies
fetch_copies_lem cf offs [] n l f = refl
fetch_copies_lem cf offs (b ∷ bs) n l f =
    fetch-step cf offs b bs n l (Fits-room cf (behind cf offs b) bs f.1)
    ∙ ap
        (λ x.
          (if bounced cf b
            then record { virt = b.virt_addr; offset = offs; size = block_size b } ∷ []
            else [])
          ++ x)
        (fetch_copies_lem cf (behind cf offs b) bs n l f.1)

-- Where the card's data go, by the descriptors, and from where they are copied: a block in reach
-- gets them itself; the others get a part of the bounce buffer each, one behind the other, of which
-- all is copied to the block's memory.
abbrev pub ReadBack : Conf → ℕ → List Block → List Desc → List Copy → Type 0
ReadBack cf offs [] ds cs = (ds ≡ []) × (cs ≡ [])
ReadBack cf offs (b ∷ bs) ds cs =
    (ds₁ : List Desc) × (ds₂ : List Desc) × (ds ≡ ds₁ ++ ds₂)
    × (((dma_accessible cf b.dma_addr (block_size b) ≡ true)
          × Covers cf b.dma_addr (block_size b) (is_nil bs) ds₁
          × ReadBack cf offs bs ds₂ cs)
        ⊎ ((dma_accessible cf b.dma_addr (block_size b) ≡ false)
            × Covers cf (cf.bb_phys + offs) (block_size b) (is_nil bs) ds₁
            × ((cs' : List Copy) × (cs
                  ≡ record { virt = b.virt_addr; offset = offs; size = block_size b } ∷ cs')
                × ReadBack cf (offs + block_size b) bs ds₂ cs')))

reach_place :
    (cf : Conf) (b : Block)
    → cf.bb_size ≢ 0
    → bounced cf b ≡ not (dma_accessible cf b.dma_addr (block_size b))
reach_place cf b n = ground (arith, n)

-- `offs` behind a block, by whether it is bounced
abbrev next_offs : ℕ → Block → Bool → ℕ
next_offs offs b y = if y then offs + block_size b else offs

abbrev copy_of : ℕ → Block → Copy
copy_of offs b = record { virt = b.virt_addr; offset = offs; size = block_size b }

described-ReadBack :
    (cf : Conf) (offs : ℕ) (bs : List Block) (ds : List Desc)
    → cf.bb_size ≢ 0
    → CoversAll cf offs bs ds
    → ReadBack cf offs bs ds (bounce_copies cf offs bs)
described-ReadBack cf offs [] ds n h = (h, refl)
described-ReadBack cf offs (b ∷ bs) ds n (ds₁, ds₂, e, cover, rest) = (
  ds₁,
  ds₂,
  e,
  split (bounced cf b) (reach_place cf b n) cover
      (described-ReadBack cf (behind cf offs b) bs ds₂ n rest),
)
  where
    split :
        (y : Bool)
        → y ≡ not (dma_accessible cf b.dma_addr (block_size b))
        → Covers cf (if y then cf.bb_phys + offs else b.dma_addr) (block_size b) (is_nil bs) ds₁
        → ReadBack cf (next_offs offs b y) bs ds₂ (bounce_copies cf (next_offs offs b y) bs)
        → ((dma_accessible cf b.dma_addr (block_size b) ≡ true)
            × Covers cf b.dma_addr (block_size b) (is_nil bs) ds₁
            × ReadBack cf offs bs ds₂ (
                (if y then copy_of offs b ∷ [] else [])
                ++ bounce_copies cf (next_offs offs b y) bs))
          ⊎ ((dma_accessible cf b.dma_addr (block_size b) ≡ false)
              × Covers cf (cf.bb_phys + offs) (block_size b) (is_nil bs) ds₁
              × ((cs' : List Copy) × ((if y then copy_of offs b ∷ [] else [])
                      ++ bounce_copies cf (next_offs offs b y) bs
                    ≡ copy_of offs b ∷ cs')
                  × ReadBack cf (offs + block_size b) bs ds₂ cs'))
    split true far c r =
        inr (ground (arith, far), c, (bounce_copies cf (offs + block_size b) bs, refl, r))
    split false near c r = inl (ground (arith, near), c, r)

-- The read CMD17 or CMD18 of a request whose blocks fit in the table and in the bounce buffer, with
-- the flag that the bounce buffer is used: `adma2_set_descs()` describes memory, and
-- `cmd_fetch_response()` then copies from it, so that each block gets its data, directly where the
-- controller can reach it, or through a part of the bounce buffer that no other block has.
pub fetch_bounced_lem :
    (cf : Conf) (c : Cmd)
    → cf.bb_size ≢ 0
    → cf.bb_phys + cf.bb_size < 2 ^ 64
    → cf.bb_size < 2 ^ 32
    → Fits cf 0 c.blocks
    → needed_all c.blocks ≤ cf.capacity
    → c.flags.read_from_bounce_buffer ≡ true
    → c.cmd == cmd17_read_single_block || c.cmd == cmd18_read_multiple_block ≡ true
    → let (t, r) = adma2_set_descs cf true 0 0 c.blocks in
      (r ≡ done tt) × ReadBack cf 0 c.blocks t.descs (fetch_bounced cf c)
unfolding fetch_bounced
fetch_bounced_lem cf c n p l f room flag read =
    let (ok, covers, none_in) =
      adma2_set_descs_lem cf true 0 0 c.blocks p l f (ground (arith, room)) in
    (
      ok,
      rw (flag, read, fetch_copies_lem cf 0 c.blocks n l f)
          (described-ReadBack cf 0 c.blocks (adma2_set_descs cf true 0 0 c.blocks).0.descs n
            covers),
    )
