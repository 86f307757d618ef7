-- ===== src/Mmc/Csd/Size.antt =====
-- The size and the speed of the CSD register of server/src/mmc.h, in machine arithmetic.
use native.Mathlib.Nat.{pow-le-pow_right, mul-le-mul}
use emmc_driver.Base.{
  ℕ, zero, suc, ◌+◌, ◌*◌, ◌%◌, ◌^◌, ◌≤◌, ◌<◌, ◌≡◌, ◌≢◌, ◌⊎◌, inl, inr, arith, ◌==◌, if◌then◌else◌,
  List, [], ◌∷◌, get_or,
}
use emmc_driver.Mmc.Csd.{
  RegCsd, IsCsd, c_size, size_u32, device_size, device_size_s0, device_size_s1, device_size_s3,
  scale_freq, speed_factor, tran_speed,
}

-- the size in whole numbers, for the layouts 0 and 2, and for layout 1
abbrev pub exact_size : RegCsd → ℕ
exact_size r = (c_size r + 1) * 2 ^ (r.c_size_mult + 2) * 2 ^ r.read_bl_len

abbrev pub exact_size_v1 : RegCsd → ℕ
exact_size_v1 r = (r.c_size_hi_v1 * 2 ^ 16 + r.c_size_lo_v1 + 1) * 512 * 1024

exact_size_lt :
    (r : RegCsd) (n k : ℕ)
    → IsCsd r
    → c_size r + 1 ≤ n
    → r.read_bl_len ≤ k
    → ((c_size r + 1) * 2 ^ (r.c_size_mult + 2) ≤ n * 512) × (exact_size r ≤ n * 512 * 2 ^ k)
exact_size_lt r n k v a b = (one, mul-le-mul one (pow-le-pow_right (omega arith) b))
  where
    one : (c_size r + 1) * 2 ^ (r.c_size_mult + 2) ≤ n * 512
    one = mul-le-mul a (pow-le-pow_right (omega arith) {j = 9} (omega (arith, v.c_size_mult_lt)))

size_u32_lem :
    (r : RegCsd)
    → (c_size r + 1) * 2 ^ (r.c_size_mult + 2) < 2 ^ 32
    → exact_size r < 2 ^ 32
    → size_u32 r ≡ exact_size r
size_u32_lem r a b = rw (mod_eq a) (mod_eq b)
  where
    mod_eq : {n : ℕ} → n < 2 ^ 32 → n % 2 ^ 32 ≡ n
    mod_eq h = omega arith

-- The block length is at most 2048, the largest that the specification defines, and below 2048 for
-- the largest `c_size`, for which the product would be just 2 ^ 32.
abbrev pub BlockLenOk : RegCsd → Type 0
BlockLenOk r = ((c_size r ≢ 0xfff) × (r.read_bl_len ≤ 11)) ⊎ (r.read_bl_len ≤ 10)

no_overflow :
    (r : RegCsd)
    → IsCsd r
    → BlockLenOk r
    → ((c_size r + 1) * 2 ^ (r.c_size_mult + 2) < 2 ^ 32) × (exact_size r < 2 ^ 32)
no_overflow r v (inl (n, l)) =
    let (a, b) = exact_size_lt r 4095 11 v (omega (arith, n, v.hi_lt, v.lo_lt)) l in
    (omega (arith, a), omega (arith, b))
no_overflow r v (inr l) =
    let (a, b) = exact_size_lt r 4096 10 v (omega (arith, v.hi_lt, v.lo_lt)) l in
    (omega (arith, a), omega (arith, b))

-- For a block length of at most 1024 bytes, or 2048 with a smaller `c_size` than the largest, no
-- product of `device_size()` overflows: the size is exact in each layout, or 0 where it stands in
-- EXT_CSD.
pub device_size_lem :
    (r : RegCsd)
    → IsCsd r
    → BlockLenOk r
    → device_size r ≡ (
        if r.csd_structure == 0
        then exact_size r
        else if r.csd_structure == 1
        then exact_size_v1 r
        else if r.csd_structure == 2
        then (if c_size r == 0xfff then 0 else exact_size r)
        else 0)
unfolding device_size device_size_s0 device_size_s1 device_size_s3
device_size_lem r v h =
    let (a, b) = no_overflow r v h in ground (arith, v.hi_v1_lt, v.lo_v1_lt, size_u32_lem r a b)

scaled : (u f : ℕ) → u ≤ 3 → f ≤ 80 → (scale_freq u 10000 * f) % 2 ^ 32 ≡ 10000 * 10 ^ u * f
unfolding scale_freq
scaled zero f h l = omega arith
scaled (suc zero) f h l = omega arith
scaled (suc (suc zero)) f h l = omega arith
scaled (suc (suc (suc zero))) f h l = omega arith
scaled (suc (suc (suc (suc u)))) f h l = absurd (omega arith)

abbrev AllLe : ℕ → List ℕ → Type 0
AllLe k [] = Unit {0}
AllLe k (x ∷ xs) = (x ≤ k) × AllLe k xs

get_or_le : (k d i : ℕ) (xs : List ℕ) → d ≤ k → AllLe k xs → get_or xs i d ≤ k
get_or_le k d i [] h a = h
get_or_le k d zero (x ∷ xs) h a = a.0
get_or_le k d (suc i) (x ∷ xs) h a = get_or_le k d i xs h a.1

abbrev factors : List ℕ
factors = 1 ∷ 10 ∷ 12 ∷ 13 ∷ 15 ∷ 20 ∷ 26 ∷ 30 ∷ 35 ∷ 40 ∷ 45 ∷ 52 ∷ 55 ∷ 60 ∷ 70 ∷ 80 ∷ []

speed_factor_le : (m : ℕ) → speed_factor m ≤ 80
speed_factor_le m = get_or_le 80 1 m factors (omega arith) (ground arith)

-- The four units that the specification defines are 100 kbit/s to 100 Mbit/s, and the speed is
-- exact: a tenth of the unit times the factor.
pub tran_speed_lem :
    (r : RegCsd)
    → IsCsd r
    → r.tran_speed_unit ≤ 3
    → tran_speed r ≡ 10000 * 10 ^ r.tran_speed_unit * speed_factor r.tran_speed_mult
unfolding tran_speed
tran_speed_lem r v h =
    scaled r.tran_speed_unit (speed_factor r.tran_speed_mult) h (speed_factor_le r.tran_speed_mult)
