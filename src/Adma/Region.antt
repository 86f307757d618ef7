-- ===== src/Adma/Region.antt =====
-- adma2_set_descs_mem_region() of server/src/drv_sdhci-impl.h: the descriptors of one region.
use emmc_driver.Base.{
  ℕ, zero, suc, ◌+◌, ◌-◌, ◌/◌, ◌%◌, ◌^◌, ◌≤◌, ◌<◌, ◌≡◌, refl, min, Bool, true, ◌&&◌, List, [], ◌∷◌,
  done, arith, ◌==◌, length, lt→not_leb, pos→not_zero,
}
use emmc_driver.Adma.{Conf, Desc, max_length, max_addr, addr_field, adma2_set_descs_mem_region}

-- descriptors for a region of `size` bytes
abbrev pub needed : ℕ → ℕ
needed size = (size + (max_length - 1)) / max_length

-- The specification: the descriptors go through the region in order and without a gap, each of
-- them valid and within the length of its field, and only the last may have the end bit.
abbrev pub Covers : Conf → ℕ → ℕ → Bool → List Desc → Type 0
Covers cf phys size terminate [] = size ≡ 0
Covers cf phys size terminate (d ∷ ds) =
    (d.valid ≡ true)
    × (d.act_tran ≡ true)
    × (d.addr ≡ phys + cf.dma_offset)
    × (0 < d.length_field)
    × (d.length_field ≤ max_length)
    × (d.length_field ≤ size)
    × (d.end_flag ≡ ((size - d.length_field == 0) && terminate))
    × Covers cf (phys + d.length_field) (size - d.length_field) terminate ds

-- The region lies where descriptors reach, also as the controller sees it.
abbrev pub Reaches : Conf → ℕ → ℕ → Type 0
Reaches cf phys size = (phys + cf.dma_offset + size ≤ max_addr cf)

next_phys :
    (cf : Conf) (phys size len : ℕ)
    → Reaches cf phys size
    → len ≤ size
    → (phys + len) % 2 ^ 64 ≡ phys + len
next_phys cf phys size len h l = ground arith

next_needed : (size : ℕ) → 0 < size → needed size ≡ needed (size - min size max_length) + 1
next_needed size h = omega arith

-- The first descriptor of a region, before those of the rest.
abbrev first_desc : Conf → ℕ → ℕ → Bool → Desc
first_desc cf phys size terminate = record {
  valid = true;
  act_tran = true;
  length_field = min size max_length;
  end_flag = (size - min size max_length == 0) && terminate;
  addr = addr_field cf (phys + cf.dma_offset);
}

region-zero :
    (cf : Conf) (fuel n phys : ℕ) (terminate : Bool)
    → adma2_set_descs_mem_region cf fuel n phys 0 terminate ≡ ([], done tt)
unfolding adma2_set_descs_mem_region
region-zero cf zero n phys terminate = refl
region-zero cf (suc fuel) n phys terminate = refl

region-step :
    (cf : Conf) (fuel n phys size : ℕ) (terminate : Bool)
    → 0 < size
    → Reaches cf phys size
    → n < cf.capacity
    → adma2_set_descs_mem_region cf (suc fuel) n phys size terminate ≡ (
        let rest =
          adma2_set_descs_mem_region cf fuel
            (n + 1)
            (phys + min size max_length)
            (size - min size max_length)
            terminate in
        (first_desc cf phys size terminate ∷ rest.0, rest.1))
unfolding adma2_set_descs_mem_region
region-step cf fuel n phys size terminate p h c =
    rw
      (
        pos→not_zero size p,
        lt→not_leb n cf.capacity c,
        lt→not_leb phys (max_addr cf) (ground arith),
        next_phys cf phys size (min size max_length) h (omega arith),
      )
      refl

addr_field-eq :
    (cf : Conf) (phys size : ℕ)
    → 0 < size
    → Reaches cf phys size
    → addr_field cf (phys + cf.dma_offset) ≡ phys + cf.dma_offset
addr_field-eq cf phys size p h = ground arith

-- A region that descriptors reach, and for which enough of them are left, is covered: the call
-- does not throw, and takes as many descriptors as the region needs.
pub mem_region-Covers :
    (cf : Conf) (fuel n phys size : ℕ) (terminate : Bool)
    → needed size ≤ fuel
    → Reaches cf phys size
    → n + needed size ≤ cf.capacity
    → let (ds, r) = adma2_set_descs_mem_region cf fuel n phys size terminate in
      (r ≡ done tt) × Covers cf phys size terminate ds × (length ds ≡ needed size)
mem_region-Covers cf fuel n phys zero terminate f h c =
    rw (region-zero cf fuel n phys terminate) (refl, refl, omega arith)
mem_region-Covers cf zero n phys (suc size) terminate f h c = absurd (omega arith)
mem_region-Covers cf (suc fuel) n phys (suc m) terminate f h c =
    let size = suc m in
    let len = min size max_length in
    let (r, cover, count) =
      mem_region-Covers cf fuel (n + 1) (phys + len) (size - len) terminate (omega arith)
        (omega arith) (omega arith) in
    rw (region-step cf fuel n phys size terminate (omega arith) h (omega arith)) (
      r,
      (
        refl,
        refl,
        addr_field-eq cf phys size (omega arith) h,
        omega arith,
        omega arith,
        omega arith,
        refl,
        cover,
      ),
      omega (arith, count),
    )
