-- ===== src/DmaMap/Round.antt =====
-- dma_map_single() and dma_unmap_single() of server/src/device-impl.h, one after the other.
use mathlib.Core.Path.{subst}
use emmc_driver.Base.{
  ℕ, ◌+◌, ◌-◌, ◌%◌, ◌^◌, ◌<◌, ◌≡◌, refl, sym, ap, ◌∙◌, ◌⊎◌, Option, none, some, Outcome, done,
  throws, enomem, arith, ltb, if◌then◌else◌, inl, inr, Bool-cases,
}
use emmc_driver.DmaMap.{
  PhysEntry, DsOffsEntry, Maps, SpaceMap, SpaceUnmap, byte_size, find, find_phys, set_refcnt, erase,
  erase_phys, map_new, map_found, dma_map_single, unmap_entry, unmap_found, dma_unmap_single,
}
use emmc_driver.DmaMap.Lookup.{find-set_refcnt, find-erase, find_phys-erase_phys}
use emmc_driver.DmaMap.Agree.{Valid, Fresh, recounted, forgotten, added, map_new-eq, if_false}

-- the same entries under the same keys
abbrev pub Same : Maps → Maps → Type 0
Same m m' =
    ((ds offset : ℕ) → find m'.ds_offs_map ds offset ≡ find m.ds_offs_map ds offset)
    × ((phys : ℕ) → find_phys m'.phys_map phys ≡ find_phys m.phys_map phys)

recount_back :
    (m : Maps) (ds offset n : ℕ) (e : PhysEntry)
    → find m.ds_offs_map ds offset ≡ some e
    → Same m (recounted (recounted m ds offset n) ds offset e.refcnt)
recount_back m ds offset n e h = (
  λ ds' offset'. ground (
    arith,
    h,
    find-set_refcnt m.ds_offs_map ds offset n ds' offset',
    find-set_refcnt (set_refcnt m.ds_offs_map ds offset n) ds offset e.refcnt ds' offset',
  ),
  λ phys. refl,
)

forget_added :
    (m : Maps) (ds offset phys n : ℕ)
    → find m.ds_offs_map ds offset ≡ none
    → find_phys m.phys_map phys ≡ none
    → Same m (forgotten (added m ds offset phys n) phys ds offset)
unfolding find find_phys erase erase_phys
forget_added m ds offset phys n f g = (
  λ ds' offset'. ground (arith, f, find-erase m.ds_offs_map ds offset ds' offset'),
  λ phys'. ground (arith, g, find_phys-erase_phys m.phys_map phys phys'),
)

-- What an unmap leaves that was preceded by its map.
abbrev pub Restored : SpaceUnmap → Maps → ℕ → ℕ → Maps × Outcome (Unit {0}) → Type 0
Restored unspace m phys n (m', r) = Same m m' × ((r ≡ done tt) ⊎ (r ≡ unspace phys (byte_size n)))

unmap-eq :
    (unspace : SpaceUnmap) (m : Maps) (phys n : ℕ) (d : DsOffsEntry) (e : PhysEntry)
    → find_phys m.phys_map phys ≡ some d
    → find m.ds_offs_map d.ds d.offset ≡ some e
    → dma_unmap_single unspace phys n m ≡ (
        if ltb 1 e.refcnt
        then (recounted m d.ds d.offset (e.refcnt - 1), done tt)
        else (forgotten m phys d.ds d.offset, unspace phys (byte_size n)))
unfolding dma_unmap_single
unmap-eq unspace m phys n d e h k =
    ap (unmap_found unspace m phys n) h ∙ ap (unmap_entry unspace m phys n d) k

unmap_recounted :
    (unspace : SpaceUnmap) (m : Maps) (ds offset n : ℕ) (e : PhysEntry)
    → Valid m
    → find m.ds_offs_map ds offset ≡ some e
    → e.refcnt + 1 < 2 ^ 32
    → dma_unmap_single unspace e.phys n (recounted m ds offset ((e.refcnt + 1) % 2 ^ 32))
      ≡ (recounted (recounted m ds offset ((e.refcnt + 1) % 2 ^ 32)) ds offset e.refcnt, done tt)
unmap_recounted unspace m ds offset n e v h l =
    unmap-eq unspace (recounted m ds offset c) e.phys n
      (record { phys = e.phys; ds = ds; offset = offset }) (record e { refcnt = c })
      (v.by_phys ds offset e h).0
      (ground (arith, h, find-set_refcnt m.ds_offs_map ds offset c ds offset))
    ∙ ground (arith, l, v.by_phys ds offset e h)
  where
    c : ℕ
    c = (e.refcnt + 1) % 2 ^ 32

unmap_added :
    (unspace : SpaceUnmap) (m : Maps) (ds offset phys n : ℕ)
    → dma_unmap_single unspace phys n (added m ds offset phys n)
      ≡ (forgotten (added m ds offset phys n) phys ds offset, unspace phys (byte_size n))
unfolding find find_phys
unmap_added unspace m ds offset phys n =
    unmap-eq unspace (added m ds offset phys n) phys n
      (record { phys = phys; ds = ds; offset = offset })
      (record { ds = ds; offset = offset; phys = phys; num_sectors = n; refcnt = 1 }) (ground arith)
      (ground arith)

-- A map that gave `phys`, with all that it did to the maps, followed by its unmap.
abbrev pub Returns : SpaceUnmap → Maps → ℕ → Maps × Outcome ℕ → Type 0
Returns unspace m n (m', done phys) = Restored unspace m phys n (dma_unmap_single unspace phys n m')
Returns unspace m n (m', throws e) = m' ≡ m

new-Returns :
    (unspace : SpaceUnmap) (m : Maps) (ds offset n : ℕ) (o : Option (ℕ × ℕ))
    → find m.ds_offs_map ds offset ≡ none
    → ((phys size : ℕ) → o ≡ some (phys, size) → find_phys m.phys_map phys ≡ none)
    → Returns unspace m n (map_new m ds offset n o)
new-Returns unspace m ds offset n none f g = refl
new-Returns unspace m ds offset n (some (phys, size)) f g =
    elim (Bool-cases (ltb size (byte_size n))) [
      | inl y ↦ rw y refl
      | inr w ↦
          subst (λ r. Returns unspace m n r)
            (sym (
              map_new-eq m ds offset n phys size (g phys size refl)
              ∙ if_false w (m, throws enomem) (added m ds offset phys n, done phys)))
            (subst (λ r. Restored unspace m phys n r) (sym (unmap_added unspace m ds offset phys n))
              (forget_added m ds offset phys n f (g phys size refl), inr refl))
    ]

found-Returns :
    (space : SpaceMap) (unspace : SpaceUnmap) (m : Maps) (ds offset n : ℕ) (o : Option PhysEntry)
    → Valid m
    → Fresh space m
    → find m.ds_offs_map ds offset ≡ o
    → ((e : PhysEntry) → o ≡ some e → e.refcnt + 1 < 2 ^ 32)
    → Returns unspace m n (map_found space m ds offset n o)
found-Returns space unspace m ds offset n none v f h l =
    new-Returns unspace m ds offset n (space ds offset (byte_size n)) h
      (λ phys size q. f ds offset (byte_size n) phys size h q)
found-Returns space unspace m ds offset n (some e) v f h l =
    subst (λ r. Restored unspace m e.phys n r)
      (sym (unmap_recounted unspace m ds offset n e v h (l e refl)))
      (recount_back m ds offset ((e.refcnt + 1) % 2 ^ 32) e h, inl refl)

-- Where the maps agree, the DMA space gives no address that is in use and no counter overflows:
-- `dma_map_single()` leaves the maps alone if it fails, and if it gives an address, then
-- `dma_unmap_single()` of that address restores every entry of both maps, and returns 0 or what the
-- DMA space answers to being given the address back.
pub dma_map_unmap :
    (space : SpaceMap) (unspace : SpaceUnmap) (m : Maps) (ds offset num_sectors : ℕ)
    → Valid m
    → Fresh space m
    → ((e : PhysEntry) → find m.ds_offs_map ds offset ≡ some e → e.refcnt + 1 < 2 ^ 32)
    → Returns unspace m num_sectors (dma_map_single space ds offset num_sectors m)
unfolding dma_map_single
dma_map_unmap space unspace m ds offset n v f l =
    found-Returns space unspace m ds offset n (find m.ds_offs_map ds offset) v f refl l
