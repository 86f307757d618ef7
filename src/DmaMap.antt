-- ===== src/DmaMap.antt =====
-- server/src/device-impl.h, dma_map_single() and dma_unmap_single(), and server/src/device.h: the
-- maps by which the device counts how often a part of a dataspace was mapped for DMA.
-- The DMA space is a parameter: for a dataspace, an offset and a size it gives the address and the
-- size that it mapped, or nothing; for an address and a size it takes the mapping back.
pub mod Lookup
pub mod Agree
pub mod Round
mod Tests
use emmc_driver.Base.{
  ℕ, ◌+◌, ◌-◌, ◌*◌, ◌%◌, ◌^◌, Bool, true, false, not, ◌&&◌, List, [], ◌∷◌, Option, none, some,
  Outcome, done, throws, enomem, enoent, ltb, ◌==◌, if◌then◌else◌,
}

-- Phys_entry with the dataspace and the offset that it stands under in `_ds_offs_map`. The map of
-- maps is one list: an inner map is erased as soon as it is empty.
pub record PhysEntry : Type 0 where
  pub ds : ℕ
  pub offset : ℕ
  pub phys : ℕ
  pub num_sectors : ℕ
  pub refcnt : ℕ

-- Ds_offs_entry with the address that it stands under in `_phys_map`
pub record DsOffsEntry : Type 0 where
  pub phys : ℕ
  pub ds : ℕ
  pub offset : ℕ

pub record Maps : Type 0 where
  pub ds_offs_map : List PhysEntry
  pub phys_map : List DsOffsEntry

abbrev pub at_key : ℕ → ℕ → PhysEntry → Bool
at_key ds offset e = (e.ds == ds) && (e.offset == offset)

unfoldable pub find : List PhysEntry → ℕ → ℕ → Option PhysEntry
find [] ds offset = none
find (e ∷ es) ds offset =
    let rest = find es ds offset in if at_key ds offset e then some e else rest

unfoldable pub find_phys : List DsOffsEntry → ℕ → Option DsOffsEntry
find_phys [] phys = none
find_phys (d ∷ es) phys = let rest = find_phys es phys in if d.phys == phys then some d else rest

-- `refcnt` of the entry at a key
unfoldable pub set_refcnt : List PhysEntry → ℕ → ℕ → ℕ → List PhysEntry
set_refcnt [] ds offset n = []
set_refcnt (e ∷ es) ds offset n =
    (if at_key ds offset e then record e { refcnt = n } else e) ∷ set_refcnt es ds offset n

unfoldable pub erase : List PhysEntry → ℕ → ℕ → List PhysEntry
erase [] ds offset = []
erase (e ∷ es) ds offset =
    let rest = erase es ds offset in if at_key ds offset e then rest else e ∷ rest

unfoldable pub erase_phys : List DsOffsEntry → ℕ → List DsOffsEntry
erase_phys [] phys = []
erase_phys (d ∷ es) phys =
    let rest = erase_phys es phys in if d.phys == phys then rest else d ∷ rest

-- emplace() leaves a map alone that has the key.
abbrev pub emplace_phys : List DsOffsEntry → DsOffsEntry → List DsOffsEntry
emplace_phys es d = elim (find_phys es d.phys) [ none ↦ d ∷ es | some _ ↦ es ]

-- What L4Re::Dma_space does.
abbrev pub SpaceMap : Type 0
SpaceMap = ℕ → ℕ → ℕ → Option (ℕ × ℕ)

abbrev pub SpaceUnmap : Type 0
SpaceUnmap = ℕ → ℕ → Outcome (Unit {0})

-- `num_sectors * sector_size()`
abbrev pub byte_size : ℕ → ℕ
byte_size n = (n * 512) % 2 ^ 64

-- the part of dma_map_single() behind the look-up, given the reply of the DMA space
abbrev pub map_new : Maps → ℕ → ℕ → ℕ → Option (ℕ × ℕ) → Maps × Outcome ℕ
map_new m ds offset num_sectors none = (m, throws enomem)
map_new m ds offset num_sectors (some (phys, size)) =
    if ltb size (byte_size num_sectors) then (m, throws enomem) else (
      record {
        ds_offs_map =
            record { ds = ds; offset = offset; phys = phys; num_sectors = num_sectors; refcnt = 1 }
            ∷ m.ds_offs_map;
        phys_map = emplace_phys m.phys_map (record { phys = phys; ds = ds; offset = offset });
      },
      done phys,
    )

abbrev pub map_found : SpaceMap → Maps → ℕ → ℕ → ℕ → Option PhysEntry → Maps × Outcome ℕ
map_found space m ds offset num_sectors none =
    map_new m ds offset num_sectors (space ds offset (byte_size num_sectors))
map_found space m ds offset num_sectors (some e) = (
  record m { ds_offs_map = set_refcnt m.ds_offs_map ds offset ((e.refcnt + 1) % 2 ^ 32) },
  done e.phys,
)

-- dma_map_single() with the workaround on, which keeps the maps.
unfoldable pub dma_map_single : SpaceMap → ℕ → ℕ → ℕ → Maps → Maps × Outcome ℕ
dma_map_single space ds offset num_sectors m =
    map_found space m ds offset num_sectors (find m.ds_offs_map ds offset)

abbrev pub unmap_entry :
    SpaceUnmap → Maps → ℕ → ℕ → DsOffsEntry → Option PhysEntry → Maps × Outcome (Unit {0})
unmap_entry space m phys num_sectors d none = (m, throws enoent)
unmap_entry space m phys num_sectors d (some e) =
    if ltb 1 e.refcnt
    then (record m { ds_offs_map = set_refcnt m.ds_offs_map d.ds d.offset (e.refcnt - 1) }, done tt)
    else (
      record {
        ds_offs_map = erase m.ds_offs_map d.ds d.offset;
        phys_map = erase_phys m.phys_map phys;
      },
      space phys (byte_size num_sectors),
    )

abbrev pub unmap_found : SpaceUnmap → Maps → ℕ → ℕ → Option DsOffsEntry → Maps × Outcome (Unit {0})
unmap_found space m phys num_sectors none = (m, throws enoent)
unmap_found space m phys num_sectors (some d) =
    unmap_entry space m phys num_sectors d (find m.ds_offs_map d.ds d.offset)

unfoldable pub dma_unmap_single : SpaceUnmap → ℕ → ℕ → Maps → Maps × Outcome (Unit {0})
dma_unmap_single space phys num_sectors m =
    unmap_found space m phys num_sectors (find_phys m.phys_map phys)
