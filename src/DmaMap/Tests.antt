-- ===== src/DmaMap/Tests.antt =====
-- The theorems on the DMA maps at a dataspace that is mapped twice.
use emmc_driver.Base.{◌+◌, ◌*◌, ◌<◌, ◌^◌, ◌≡◌, refl, [], some, done}
use emmc_driver.DmaMap.{Maps, PhysEntry, SpaceMap, SpaceUnmap, find, find_phys, dma_map_single}
use emmc_driver.DmaMap.Agree.{Valid, Fresh, dma_map_single-Valid}
use emmc_driver.DmaMap.Round.{Returns, dma_map_unmap}

-- A DMA space that maps a part of a dataspace 1:1 at an address of its own.
abbrev space : SpaceMap
space ds offset size = some (ds * 2 ^ 20 + offset, size)

abbrev unspace : SpaceUnmap
unspace phys size = done tt

abbrev no_maps : Maps
no_maps = record { ds_offs_map = []; phys_map = [] }

no_maps-Valid : Valid no_maps
unfolding find find_phys
no_maps-Valid = record { by_phys = λ ds offset e h. cc; by_key = λ phys d h. cc }

no_maps-Fresh : Fresh space no_maps
unfolding find_phys
no_maps-Fresh ds offset size phys size' f s = refl

no_entry : (e : PhysEntry) → find no_maps.ds_offs_map 3 4096 ≡ some e → e.refcnt + 1 < 2 ^ 32
unfolding find
no_entry e h = cc

abbrev mapped : Maps
mapped = (dma_map_single space 3 4096 8 no_maps).0

mapped-Valid : Valid mapped
mapped-Valid = dma_map_single-Valid space no_maps 3 4096 8 no_maps-Valid no_maps-Fresh no_entry

dma_map_unmap_example : Returns unspace no_maps 8 (dma_map_single space 3 4096 8 no_maps)
dma_map_unmap_example =
    dma_map_unmap space unspace no_maps 3 4096 8 no_maps-Valid no_maps-Fresh no_entry
