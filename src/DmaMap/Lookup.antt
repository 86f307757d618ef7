-- ===== src/DmaMap/Lookup.antt =====
-- Look-up in the maps of server/src/device-impl.h, after each of their changes.
use emmc_driver.Base.{
  ℕ, ◌≡◌, refl, Bool, ◌&&◌, List, [], ◌∷◌, none, some, arith, ◌==◌, if◌then◌else◌,
}
use emmc_driver.DmaMap.{PhysEntry, DsOffsEntry, find, find_phys, set_refcnt, erase, erase_phys}

pub find-key :
    (es : List PhysEntry) (ds offset : ℕ) (e : PhysEntry)
    → find es ds offset ≡ some e
    → (e.ds ≡ ds) × (e.offset ≡ offset)
unfolding find
find-key [] ds offset e h = cc
find-key (x ∷ es) ds offset e h = ground (arith, h, find-key es ds offset e)

pub find_phys-key :
    (es : List DsOffsEntry) (phys : ℕ) (d : DsOffsEntry)
    → find_phys es phys ≡ some d
    → d.phys ≡ phys
unfolding find_phys
find_phys-key [] phys d h = cc
find_phys-key (x ∷ es) phys d h = ground (arith, h, find_phys-key es phys d)

abbrev pub same : ℕ → ℕ → ℕ → ℕ → Bool
same ds offset ds' offset' = (ds == ds') && (offset == offset')

pub find-set_refcnt :
    (es : List PhysEntry) (ds offset n ds' offset' : ℕ)
    → find (set_refcnt es ds offset n) ds' offset' ≡ (elim (find es ds' offset') [
      | none ↦ none
      | some e ↦ some (if same ds offset ds' offset' then record e { refcnt = n } else e)
    ])
unfolding find set_refcnt
find-set_refcnt [] ds offset n ds' offset' = refl
find-set_refcnt (x ∷ es) ds offset n ds' offset' =
    ground (arith, find-set_refcnt es ds offset n ds' offset')

pub find-erase :
    (es : List PhysEntry) (ds offset ds' offset' : ℕ)
    → find (erase es ds offset) ds' offset'
      ≡ (if same ds offset ds' offset' then none else find es ds' offset')
unfolding find erase
find-erase [] ds offset ds' offset' = ground arith
find-erase (x ∷ es) ds offset ds' offset' = ground (arith, find-erase es ds offset ds' offset')

pub find_phys-erase_phys :
    (es : List DsOffsEntry) (phys phys' : ℕ)
    → find_phys (erase_phys es phys) phys' ≡ (if phys == phys' then none else find_phys es phys')
unfolding find_phys erase_phys
find_phys-erase_phys [] phys phys' = ground arith
find_phys-erase_phys (x ∷ es) phys phys' = ground (arith, find_phys-erase_phys es phys phys')

-- Erasing what is not there changes nothing.
pub erase-absent :
    (es : List PhysEntry) (ds offset : ℕ) → find es ds offset ≡ none → erase es ds offset ≡ es
unfolding find erase
erase-absent [] ds offset h = refl
erase-absent (x ∷ es) ds offset h = ground (arith, h, erase-absent es ds offset)

pub erase_phys-absent :
    (es : List DsOffsEntry) (phys : ℕ) → find_phys es phys ≡ none → erase_phys es phys ≡ es
unfolding find_phys erase_phys
erase_phys-absent [] phys h = refl
erase_phys-absent (x ∷ es) phys h = ground (arith, h, erase_phys-absent es phys)
