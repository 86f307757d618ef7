-- ===== src/Adma/Blocks.antt =====
-- adma2_set_descs() and cmd_fetch_response() of server/src/drv_sdhci-impl.h: the descriptors of a
-- whole request, and the copies from and to the bounce buffer.
use mathlib.Core.Path.{subst}
use emmc_driver.Base.{
  ℕ, ◌+◌, ◌%◌, ◌^◌, ◌≤◌, ◌<◌, ◌≡◌, refl, sym, ap, ◌∙◌, Bool, true, false, not, ◌&&◌, List, [], ◌∷◌,
  ◌++◌, Outcome, done, throws, arith, if◌then◌else◌, length, inl, inr, Bool-cases, le→not_ltb,
}
use emmc_driver.Cmd.{Block}
use emmc_driver.Adma.{
  Conf, Desc, Copy, Table, rounds, adma2_set_descs_mem_region, adma2_set_descs,
  provided_bounce_buffer, dma_accessible, block_size, is_nil, and_then,
}
use emmc_driver.Adma.Region.{needed, Covers, Reaches, mem_region-Covers}

-- The specification: which blocks go through the bounce buffer, where the controller finds a
-- block, and where the buffer is free behind it.
abbrev pub bounced : Conf → Block → Bool
bounced cf b = provided_bounce_buffer cf && not (dma_accessible cf b.dma_addr (block_size b))

abbrev pub place : Conf → ℕ → Block → ℕ
place cf offs b = if bounced cf b then cf.bb_phys + offs else b.dma_addr

abbrev pub behind : Conf → ℕ → Block → ℕ
behind cf offs b = if bounced cf b then offs + block_size b else offs

abbrev pub bounce_copies : Conf → ℕ → List Block → List Copy
bounce_copies cf offs [] = []
bounce_copies cf offs (b ∷ bs) =
    (if bounced cf b
      then record { virt = b.virt_addr; offset = offs; size = block_size b } ∷ []
      else [])
    ++ bounce_copies cf (behind cf offs b) bs

-- The descriptors of the blocks stand one after the other, and the last block has the end bit.
abbrev pub CoversAll : Conf → ℕ → List Block → List Desc → Type 0
CoversAll cf offs [] ds = ds ≡ []
CoversAll cf offs (b ∷ bs) ds =
    (ds₁ : List Desc) × (ds₂ : List Desc) × (ds ≡ ds₁ ++ ds₂)
    × Covers cf (place cf offs b) (block_size b) (is_nil bs) ds₁
    × CoversAll cf (behind cf offs b) bs ds₂

abbrev pub needed_all : List Block → ℕ
needed_all [] = 0
needed_all (b ∷ bs) = needed (block_size b) + needed_all bs

-- Descriptors reach every block where it is placed, and the bounce buffer has room.
abbrev pub Fits : Conf → ℕ → List Block → Type 0
Fits cf offs [] = offs ≤ cf.bb_size
Fits cf offs (b ∷ bs) = Reaches cf (place cf offs b) (block_size b) × Fits cf (behind cf offs b) bs

pub Fits-room : (cf : Conf) (offs : ℕ) (bs : List Block) → Fits cf offs bs → offs ≤ cf.bb_size
Fits-room cf offs [] h = h
Fits-room cf offs (b ∷ bs) h = ground (arith, Fits-room cf (behind cf offs b) bs h.1)

-- What is expected of adma2_set_descs().
abbrev pub Described : Conf → Bool → ℕ → List Block → Table × Outcome (Unit {0}) → Type 0
Described cf rd offs bs (t, r) =
    (r ≡ done tt)
    × CoversAll cf offs bs t.descs
    × (t.copies ≡ (if rd then [] else bounce_copies cf offs bs))

-- What a round copies into the bounce buffer.
abbrev copied : Conf → Bool → ℕ → Block → List Copy
copied cf rd offs b =
    if bounced cf b
    then if rd then [] else record { virt = b.virt_addr; offset = offs; size = block_size b } ∷ []
    else []

copies_if :
    (y rd : Bool) (c : Copy) (rest : List Copy)
    → (if y then (if rd then [] else c ∷ []) else []) ++ (if rd then [] else rest)
      ≡ (if rd then [] else (if y then c ∷ [] else []) ++ rest)
copies_if true true c rest = refl
copies_if true false c rest = refl
copies_if false true c rest = refl
copies_if false false c rest = refl

round-copies :
    (cf : Conf) (rd : Bool) (offs : ℕ) (b : Block) (bs : List Block) (rest : List Copy)
    → rest ≡ (if rd then [] else bounce_copies cf (behind cf offs b) bs)
    → copied cf rd offs b ++ rest ≡ (if rd then [] else bounce_copies cf offs (b ∷ bs))
round-copies cf rd offs b bs rest e =
    ap (λ x. copied cf rd offs b ++ x) e
    ∙ copies_if (bounced cf b) rd
        (record { virt = b.virt_addr; offset = offs; size = block_size b })
        (bounce_copies cf (behind cf offs b) bs)

round-Described :
    (cf : Conf) (rd : Bool) (offs : ℕ) (b : Block) (bs : List Block) (x : ℕ)
    (m : List Desc × Outcome (Unit {0})) (rest : Table × Outcome (Unit {0}))
    → m.1 ≡ done tt
    → Covers cf (place cf offs b) (block_size b) (is_nil bs) m.0
    → Described cf rd (behind cf offs b) bs rest
    → Described cf rd offs (b ∷ bs) (and_then m (copied cf rd offs b) x rest)
round-Described cf rd offs b bs x (ds, done u) (t, r) ok cover (rok, covers, copies) =
    (rok, (ds, t.descs, refl, cover, covers), round-copies cf rd offs b bs t.copies copies)
round-Described cf rd offs b bs x (ds, throws e) rest ok cover d = cc

-- One round of adma2_set_descs(), with no arithmetic that wraps.
round-eq :
    (cf : Conf) (rd : Bool) (n offs : ℕ) (b : Block) (bs : List Block)
    → cf.bb_phys + cf.bb_size < 2 ^ 64
    → cf.bb_size < 2 ^ 32
    → behind cf offs b ≤ cf.bb_size
    → let m =
        adma2_set_descs_mem_region cf
          (rounds (block_size b))
          n
          (place cf offs b)
          (block_size b)
          (is_nil bs) in
      adma2_set_descs cf rd n offs (b ∷ bs)
      ≡ and_then m
          (copied cf rd offs b)
          (behind cf offs b)
          (adma2_set_descs cf rd (n + length m.0) (behind cf offs b) bs)
unfolding adma2_set_descs
round-eq cf rd n offs b bs p l h = elim (Bool-cases (bounced cf b)) [
  | inl y ↦ rw (y, mod_bb y, mod_phys y, le→not_ltb (offs + block_size b) cf.bb_size (room y)) refl
  | inr n' ↦ rw n' refl
]
  where
    room : bounced cf b ≡ true → offs + block_size b ≤ cf.bb_size
    room y = ground (arith, y, h)

    mod_bb : bounced cf b ≡ true → (offs + block_size b) % 2 ^ 32 ≡ offs + block_size b
    mod_bb y = omega (arith, room y, l)

    mod_phys : bounced cf b ≡ true → (cf.bb_phys + offs) % 2 ^ 64 ≡ cf.bb_phys + offs
    mod_phys y = omega (arith, room y, p)

block_size_lt : (b : Block) → needed (block_size b) ≤ rounds (block_size b)
block_size_lt b = omega arith

-- Where the blocks of a request lie in reach of the controller, or fit the bounce buffer, and the
-- table has room for the descriptors that they need, adma2_set_descs() does not throw: the table
-- describes all blocks in order, those out of reach at their places in the bounce buffer, and for
-- a write these were copied there.
pub adma2_set_descs_lem :
    (cf : Conf) (rd : Bool) (n offs : ℕ) (bs : List Block)
    → cf.bb_phys + cf.bb_size < 2 ^ 64
    → cf.bb_size < 2 ^ 32
    → Fits cf offs bs
    → n + needed_all bs ≤ cf.capacity
    → Described cf rd offs bs (adma2_set_descs cf rd n offs bs)
unfolding adma2_set_descs
adma2_set_descs_lem cf rd n offs [] p l f c = (refl, refl, ground arith)
adma2_set_descs_lem cf rd n offs (b ∷ bs) p l f c =
    let m =
      adma2_set_descs_mem_region cf (rounds (block_size b)) n (place cf offs b) (block_size b)
        (is_nil bs) in
    let (ok, cover, count) =
      mem_region-Covers cf (rounds (block_size b)) n (place cf offs b) (block_size b) (is_nil bs)
        (block_size_lt b) f.0 (omega arith) in
    subst (λ r. Described cf rd offs (b ∷ bs) r)
      (sym (round-eq cf rd n offs b bs p l (Fits-room cf (behind cf offs b) bs f.1)))
      (round-Described cf rd offs b bs (behind cf offs b) m
        (adma2_set_descs cf rd (n + length m.0) (behind cf offs b) bs) ok cover
        (adma2_set_descs_lem cf rd (n + length m.0) (behind cf offs b) bs p l f.1
          (omega (arith, count))))
