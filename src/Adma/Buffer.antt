-- ===== src/Adma/Buffer.antt =====
-- Drv_base::setup_bounce_buffer() of server/src/drv.cc: what is recorded of the bounce buffer, and when.
use native.Mathlib.Nat.{mul-le-mul_left, mul-div-le}
use emmc_driver.Base.{
  ℕ, ◌*◌, ◌/◌, ◌≤◌, ◌<◌, ◌≡◌, refl, ◌⊎◌, inl, inr, Bool, true, false, not, Errno, Outcome, done,
  throws, einval, Method, arith, ltb, ◌==◌, if◌then◌else◌, Bool-cases,
}
use emmc_driver.Adma.{Conf, dma_accessible}

-- What L4Re answers: the size of the dataspace, where the DMA space maps it and how much of it, and
-- where it is attached.
pub record Answers : Type 0 where
  pub cap_size : ℕ
  pub map : Outcome (ℕ × ℕ)
  pub attach : Outcome ℕ

-- `_bb_phys` and `_bb_size` are those of the configuration.
pub record Buffer : Type 0 where
  pub conf : Conf
  pub bb_virt : ℕ

abbrev pub recorded : ℕ → ℕ → ℕ → Buffer → Buffer
recorded phys size virt b = record {
  conf = record (b.conf) { bb_size = size; bb_phys = phys };
  bb_virt = virt;
}

abbrev pub check_reach : Buffer → Buffer × Outcome (Unit {0})
check_reach b =
    if dma_accessible b.conf b.conf.bb_phys b.conf.bb_size then (b, done tt) else (b, throws einval)

-- The size for each segment, where there are segments.
abbrev pub attached : ℕ → ℕ → ℕ → Outcome ℕ → Method Buffer (Unit {0})
attached max_seg phys size (throws e) b = (b, throws e)
attached max_seg phys size (done virt) b =
    if ltb (size / max_seg) 4096
    then (b, throws einval)
    else check_reach (recorded phys size virt b)

abbrev pub mapped : Answers → ℕ → Outcome (ℕ × ℕ) → Method Buffer (Unit {0})
mapped a max_seg (throws e) b = (b, throws e)
mapped a max_seg (done (phys, size)) b =
    if not (size == a.cap_size) then (b, throws einval) else attached max_seg phys size a.attach b

unfoldable pub setup_bounce_buffer : Answers → ℕ → Method Buffer (Unit {0})
setup_bounce_buffer a max_seg b =
    if ltb a.cap_size 65536 then (b, throws einval) else mapped a max_seg a.map b

-- A buffer with a page for each segment.
abbrev pub Suffices : ℕ → Buffer → Type 0
Suffices max_seg b = (65536 ≤ b.conf.bb_size) × (max_seg * 4096 ≤ b.conf.bb_size)

abbrev pub reaches : Buffer → Bool
reaches b = dma_accessible b.conf b.conf.bb_phys b.conf.bb_size

abbrev pub Recorded : ℕ → Buffer → Buffer × Outcome (Unit {0}) → Type 0
Recorded max_seg b (b', r) =
    ((r ≡ done tt) × (reaches b' ≡ true) × Suffices max_seg b')
    ⊎ (((e : Errno) × (r ≡ throws e) × (b' ≡ b))
        ⊎ ((r ≡ throws einval) × (reaches b' ≡ false) × Suffices max_seg b'))

check_reach-Recorded :
    (max_seg : ℕ) (b b' : Buffer) → Suffices max_seg b' → Recorded max_seg b (check_reach b')
check_reach-Recorded max_seg b b' s = elim (Bool-cases (reaches b')) [
  | inl near ↦ rw near (inl (refl, near, s))
  | inr far ↦ rw far (inr (inr (refl, far, s)))
]

pages : (size max_seg : ℕ) → 0 < max_seg → ltb (size / max_seg) 4096 ≡ false → max_seg * 4096 ≤ size
pages size max_seg p h = omega (
  arith,
  mul-le-mul_left {m = 4096} {n = size / max_seg} max_seg (ground (arith, h)),
  mul-div-le size max_seg,
)

attached-Recorded :
    (max_seg phys size : ℕ) (o : Outcome ℕ) (b : Buffer)
    → 0 < max_seg
    → 65536 ≤ size
    → Recorded max_seg b (attached max_seg phys size o b)
attached-Recorded max_seg phys size (throws e) b p l = inr (inl (e, refl, refl))
attached-Recorded max_seg phys size (done virt) b p l =
    elim (Bool-cases (ltb (size / max_seg) 4096)) [
      | inl small ↦ rw small (inr (inl (einval, refl, refl)))
      | inr large ↦ rw large (
          check_reach-Recorded max_seg b (recorded phys size virt b)
            (l, pages size max_seg p large))
    ]

mapped-Recorded :
    (a : Answers) (max_seg : ℕ) (o : Outcome (ℕ × ℕ)) (b : Buffer)
    → 0 < max_seg
    → 65536 ≤ a.cap_size
    → Recorded max_seg b (mapped a max_seg o b)
mapped-Recorded a max_seg (throws e) b p l = inr (inl (e, refl, refl))
mapped-Recorded a max_seg (done (phys, size)) b p l = elim (Bool-cases (size == a.cap_size)) [
  | inl whole ↦
      rw whole (attached-Recorded max_seg phys size a.attach b p (ground (arith, whole, l)))
  | inr part ↦ rw part (inr (inl (einval, refl, refl)))
]

-- Where there is at least one segment: `setup_bounce_buffer()` succeeds with a buffer of at least
-- 64 KiB and a page for each segment, all of it in reach of the controller; or it throws and records
-- nothing; or it throws for a buffer out of reach that it has recorded all the same.
pub setup_bounce_buffer_lem :
    (a : Answers) (max_seg : ℕ) (b : Buffer)
    → 0 < max_seg
    → Recorded max_seg b (setup_bounce_buffer a max_seg b)
unfolding setup_bounce_buffer
setup_bounce_buffer_lem a max_seg b p = elim (Bool-cases (ltb a.cap_size 65536)) [
  | inl small ↦ rw small (inr (inl (einval, refl, refl)))
  | inr large ↦ rw large (mapped-Recorded a max_seg a.map b p (ground (arith, large)))
]
