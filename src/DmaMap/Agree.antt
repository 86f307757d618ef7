-- ===== src/DmaMap/Agree.antt =====
-- dma_map_single() and dma_unmap_single() of server/src/device-impl.h: the two maps agree.
use mathlib.Core.Path.{subst}
use emmc_driver.Base.{
  ℕ, ◌+◌, ◌-◌, ◌%◌, ◌^◌, ◌<◌, ◌≡◌, refl, sym, ◌∙◌, Bool, false, ◌∷◌, Option, none, some, done,
  throws, enomem, arith, ltb, ◌==◌, if◌then◌else◌, inl, inr, Bool-cases, Option-cases,
}
use emmc_driver.DmaMap.{
  PhysEntry, DsOffsEntry, Maps, SpaceMap, SpaceUnmap, byte_size, find, find_phys, set_refcnt, erase,
  erase_phys, map_new, map_found, dma_map_single, unmap_entry, unmap_found, dma_unmap_single,
}
use emmc_driver.DmaMap.Lookup.{same, find-set_refcnt, find-erase, find_phys-erase_phys}

-- Every part of a dataspace that is mapped is found by its address, and the other way round.
pub record Valid (m : Maps) : Type 0 where
  pub by_phys :
      (ds offset : ℕ) (e : PhysEntry)
      → find m.ds_offs_map ds offset ≡ some e
      → (find_phys m.phys_map e.phys ≡ some (record { phys = e.phys; ds = ds; offset = offset }))
        × (0 < e.refcnt)
  pub by_key :
      (phys : ℕ) (d : DsOffsEntry)
      → find_phys m.phys_map phys ≡ some d
      → (e : PhysEntry) × (find m.ds_offs_map d.ds d.offset ≡ some e) × (e.phys ≡ phys)

-- The DMA space gives no address that is in use.
abbrev pub Fresh : SpaceMap → Maps → Type 0
Fresh space m =
    (ds offset size phys size' : ℕ)
    → find m.ds_offs_map ds offset ≡ none
    → space ds offset size ≡ some (phys, size')
    → find_phys m.phys_map phys ≡ none

abbrev pub recounted : Maps → ℕ → ℕ → ℕ → Maps
recounted m ds offset n = record m { ds_offs_map = set_refcnt m.ds_offs_map ds offset n }

recounted-Valid : {m : Maps} (ds offset n : ℕ) → Valid m → 0 < n → Valid (recounted m ds offset n)
recounted-Valid {m} ds offset n v p = record {
  by_phys = λ ds' offset' e h. elim (Option-cases (find m.ds_offs_map ds' offset')) [
    | inl q ↦ absurd (ground (arith, h, q, find-set_refcnt m.ds_offs_map ds offset n ds' offset'))
    | inr (e₀, q) ↦ ground (
      arith,
      h,
      q,
      find-set_refcnt m.ds_offs_map ds offset n ds' offset',
      v.by_phys ds' offset' e₀ q,
    )
  ];
  by_key = λ phys d h.
      let (e, q, r) = v.by_key phys d h in
      (
        if same ds offset d.ds d.offset then record e { refcnt = n } else e,
        find-set_refcnt m.ds_offs_map ds offset n d.ds d.offset ∙ rw q refl,
        ground (arith, r),
      );
}

-- The maps behind the last unmap of a part.
abbrev pub forgotten : Maps → ℕ → ℕ → ℕ → Maps
forgotten m phys ds offset = record {
  ds_offs_map = erase m.ds_offs_map ds offset;
  phys_map = erase_phys m.phys_map phys;
}

forgotten-Valid :
    {m : Maps} (phys : ℕ) (d : DsOffsEntry)
    → Valid m
    → find_phys m.phys_map phys ≡ some d
    → Valid (forgotten m phys d.ds d.offset)
forgotten-Valid {m} phys d v h = record {
  by_phys = λ ds' offset' e q. ground (
    arith,
    h,
    q,
    find-erase m.ds_offs_map d.ds d.offset ds' offset',
    find_phys-erase_phys m.phys_map phys e.phys,
    v.by_phys ds' offset' e,
  );
  by_key = λ phys' d' q.
      let k = find_phys-erase_phys m.phys_map phys phys' in
      let (e, f, r) = v.by_key phys' d' (ground (arith, q, k)) in
      let (e₂, f₂, r₂) = v.by_key phys d h in
      (
        e,
        ground (arith, q, k, f, r, f₂, r₂, find-erase m.ds_offs_map d.ds d.offset d'.ds d'.offset),
        r,
      );
}

-- The maps behind the first map of a part.
abbrev pub added : Maps → ℕ → ℕ → ℕ → ℕ → Maps
added m ds offset phys num_sectors = record {
  ds_offs_map =
      record { ds = ds; offset = offset; phys = phys; num_sectors = num_sectors; refcnt = 1 }
      ∷ m.ds_offs_map;
  phys_map = record { phys = phys; ds = ds; offset = offset } ∷ m.phys_map;
}

added-Valid :
    {m : Maps} (ds offset phys num_sectors : ℕ)
    → Valid m
    → find m.ds_offs_map ds offset ≡ none
    → find_phys m.phys_map phys ≡ none
    → Valid (added m ds offset phys num_sectors)
unfolding find find_phys
added-Valid {m} ds offset phys num_sectors v f g = record {
  by_phys = λ ds' offset' e q. ground (arith, f, g, q, v.by_phys ds' offset' e);
  by_key = λ phys' d q. elim (Bool-cases (phys == phys')) [
    | inl y ↦ (
      record { ds = ds; offset = offset; phys = phys; num_sectors = num_sectors; refcnt = 1 },
      ground (arith, q, y),
      ground (arith, y),
    )
    | inr n ↦
        let (e, k, r) = v.by_key phys' d (ground (arith, q, n)) in
        (e, ground (arith, f, g, n, q, k, r), r)
  ];
}

pub if_false : {A : Type 0} {b : Bool} → b ≡ false → (x y : A) → (if b then x else y) ≡ y
if_false e x y = rw e refl

pub map_new-eq :
    (m : Maps) (ds offset n phys size : ℕ)
    → find_phys m.phys_map phys ≡ none
    → map_new m ds offset n (some (phys, size)) ≡ (
        if ltb size (byte_size n)
        then (m, throws enomem)
        else (added m ds offset phys n, done phys))
map_new-eq m ds offset n phys size g = ground (arith, g)

map_new-Valid :
    {m : Maps} (ds offset n : ℕ) (o : Option (ℕ × ℕ))
    → Valid m
    → find m.ds_offs_map ds offset ≡ none
    → ((phys size : ℕ) → o ≡ some (phys, size) → find_phys m.phys_map phys ≡ none)
    → Valid (map_new m ds offset n o).0
map_new-Valid ds offset n none v f g = v
map_new-Valid {m} ds offset n (some (phys, size)) v f g =
    elim (Bool-cases (ltb size (byte_size n))) [
      | inl y ↦ rw y v
      | inr w ↦
          subst (λ r. Valid r.0)
            (sym (
              map_new-eq m ds offset n phys size (g phys size refl)
              ∙ if_false w (m, throws enomem) (added m ds offset phys n, done phys)))
            (added-Valid ds offset phys n v f (g phys size refl))
    ]

map_found-Valid :
    (space : SpaceMap) (m : Maps) (ds offset n : ℕ) (o : Option PhysEntry)
    → Valid m
    → Fresh space m
    → find m.ds_offs_map ds offset ≡ o
    → ((e : PhysEntry) → o ≡ some e → e.refcnt + 1 < 2 ^ 32)
    → Valid (map_found space m ds offset n o).0
map_found-Valid space m ds offset n (some e) v f h r =
    recounted-Valid ds offset ((e.refcnt + 1) % 2 ^ 32) v (omega (arith, r e refl))
map_found-Valid space m ds offset n none v f h r =
    map_new-Valid ds offset n (space ds offset (byte_size n)) v h
      (λ phys size q. f ds offset (byte_size n) phys size h q)

-- Mapping keeps the two maps in agreement, where the DMA space gives no address that is in use and
-- no counter overflows its 32 bits.
pub dma_map_single-Valid :
    (space : SpaceMap) (m : Maps) (ds offset num_sectors : ℕ)
    → Valid m
    → Fresh space m
    → ((e : PhysEntry) → find m.ds_offs_map ds offset ≡ some e → e.refcnt + 1 < 2 ^ 32)
    → Valid (dma_map_single space ds offset num_sectors m).0
unfolding dma_map_single
dma_map_single-Valid space m ds offset n v f r =
    map_found-Valid space m ds offset n (find m.ds_offs_map ds offset) v f refl r

unmap_entry-Valid :
    (space : SpaceUnmap) (m : Maps) (phys n : ℕ) (d : DsOffsEntry) (o : Option PhysEntry)
    → Valid m
    → find_phys m.phys_map phys ≡ some d
    → Valid (unmap_entry space m phys n d o).0
unmap_entry-Valid space m phys n d none v h = v
unmap_entry-Valid space m phys n d (some e) v h = elim (Bool-cases (ltb 1 e.refcnt)) [
  | inl y ↦ rw y (recounted-Valid d.ds d.offset (e.refcnt - 1) v (ground (arith, y)))
  | inr w ↦ rw w (forgotten-Valid phys d v h)
]

unmap_found-Valid :
    (space : SpaceUnmap) (m : Maps) (phys n : ℕ) (o : Option DsOffsEntry)
    → Valid m
    → find_phys m.phys_map phys ≡ o
    → Valid (unmap_found space m phys n o).0
unmap_found-Valid space m phys n none v h = v
unmap_found-Valid space m phys n (some d) v h =
    unmap_entry-Valid space m phys n d (find m.ds_offs_map d.ds d.offset) v h

-- Unmapping keeps the two maps in agreement, whatever address it is given and whatever the DMA
-- space answers.
pub dma_unmap_single-Valid :
    (space : SpaceUnmap) (m : Maps) (phys num_sectors : ℕ)
    → Valid m
    → Valid (dma_unmap_single space phys num_sectors m).0
unfolding dma_unmap_single
dma_unmap_single-Valid space m phys n v =
    unmap_found-Valid space m phys n (find_phys m.phys_map phys) v refl
