-- ===== src/Mmc/Csd.antt =====
-- server/src/mmc.h, struct Reg_csd, and Device::device_size() of server/src/device-impl.h: the
-- size of the medium that the card-specific data register reports.
-- A register is the record of its bit fields that the code reads; `IsCsd` states their widths.
pub mod Size
use emmc_driver.Base.{
  ℕ, zero, suc, ◌+◌, ◌*◌, ◌/◌, ◌%◌, ◌^◌, ◌<◌, ◌==◌, if◌then◌else◌, [], ◌∷◌, get_or,
}

-- The fields of words 0 to 2 that a size or a speed is computed from. `csd_structure`,
-- `read_bl_len` and the speed stand in the same bits of every layout; `c_size_hi` has 10 bits
-- and `c_size_lo` 2 in the layouts 0 and 3, 6 and 16 in layout 1.
pub record RegCsd : Type 0 where
  pub csd_structure : ℕ
  pub tran_speed_mult : ℕ
  pub tran_speed_unit : ℕ
  pub read_bl_len : ℕ
  pub c_size_mult : ℕ
  pub c_size_hi : ℕ
  pub c_size_lo : ℕ
  pub c_size_hi_v1 : ℕ
  pub c_size_lo_v1 : ℕ

pub record IsCsd (r : RegCsd) : Type 0 where
  pub structure_lt : r.csd_structure < 2 ^ 2
  pub mult_lt : r.tran_speed_mult < 2 ^ 4
  pub unit_lt : r.tran_speed_unit < 2 ^ 3
  pub bl_len_lt : r.read_bl_len < 2 ^ 4
  pub c_size_mult_lt : r.c_size_mult < 2 ^ 3
  pub hi_lt : r.c_size_hi < 2 ^ 10
  pub lo_lt : r.c_size_lo < 2 ^ 2
  pub hi_v1_lt : r.c_size_hi_v1 < 2 ^ 6
  pub lo_v1_lt : r.c_size_lo_v1 < 2 ^ 16

-- `(c_size_hi() << 2) | c_size_lo()`, in 32 bits
abbrev pub c_size : RegCsd → ℕ
c_size r = r.c_size_hi * 2 ^ 2 + r.c_size_lo

-- `(c_size + 1) * mult * block_len` in 32 bits
abbrev pub size_u32 : RegCsd → ℕ
size_u32 r = (((c_size r + 1) * 2 ^ (r.c_size_mult + 2)) % 2 ^ 32 * 2 ^ r.read_bl_len) % 2 ^ 32

-- Reg_csd::s3 (eMMC): 0 if the size is in EXT_CSD
unfoldable pub device_size_s3 : RegCsd → ℕ
device_size_s3 r = if c_size r == 0xfff then 0 else size_u32 r

-- Reg_csd::s1 (SD version 2): 64-bit arithmetic
unfoldable pub device_size_s1 : RegCsd → ℕ
device_size_s1 r = ((r.c_size_hi_v1 * 2 ^ 16 + r.c_size_lo_v1 + 1) * 2 ^ 19) % 2 ^ 64

-- Reg_csd::s0 (SD version 1)
unfoldable pub device_size_s0 : RegCsd → ℕ
device_size_s0 r = size_u32 r

-- Device::device_size()
unfoldable pub device_size : RegCsd → ℕ
unfolding device_size_s0 device_size_s1 device_size_s3
device_size r =
    if r.csd_structure == 0
    then device_size_s0 r
    else if r.csd_structure == 1
    then device_size_s1 r
    else if r.csd_structure == 2
    then device_size_s3 r
    else 0

-- The loop of tran_speed(), in 32 bits, for as many rounds as `tran_speed_unit` says.
unfoldable pub scale_freq : ℕ → ℕ → ℕ
scale_freq zero freq = freq
scale_freq (suc n) freq = scale_freq n ((freq * 10) % 2 ^ 32)

-- The factor of the switch, in tenths; 0, which is reserved, gives the frequency itself.
abbrev pub speed_factor : ℕ → ℕ
speed_factor m =
    get_or (1 ∷ 10 ∷ 12 ∷ 13 ∷ 15 ∷ 20 ∷ 26 ∷ 30 ∷ 35 ∷ 40 ∷ 45 ∷ 52 ∷ 55 ∷ 60 ∷ 70 ∷ 80 ∷ []) m 1

-- tran_speed(), the same in all layouts
unfoldable pub tran_speed : RegCsd → ℕ
tran_speed r =
    (scale_freq r.tran_speed_unit (100000 / 10) * speed_factor r.tran_speed_mult) % 2 ^ 32
