-- ===== src/Reg.antt =====
-- The bit fields of registers: `CXX_BITFIELD_MEMBER(lsb, msb, name, raw)` in server/src/mmc.h,
-- server/src/drv_sdhci.h and server/src/drv_sdhi.h. A register's content is the function from a
-- position to its bit. A field has the bits from `lsb` to `msb`, and writing it changes no others:
-- this is what the macro of the L4 library documents.
pub mod Laminar
pub mod Ops
use Prim.Native.String.{String}
use text.Mathlib.Text as Text
use emmc_driver.Base.{ℕ, ◌+◌, ◌-◌, ◌*◌, Bool, true, false, ◌&&◌, List, [], ◌∷◌, leb, if◌then◌else◌}
use emmc_driver.Mmc.{test_bit}

abbrev pub Word : Type 0
Word = ℕ → Bool

abbrev pub word : ℕ → Word
word n i = test_bit n i

pub record Field : Type 0 where
  pub lsb : ℕ
  pub msb : ℕ
  pub name : String

abbrev pub Layout : Type 0
Layout = List Field

abbrev pub bits : ℕ → ℕ → String → Field
bits l m n = record { lsb = l; msb = m; name = n }

-- A field of the word `k` of a register with several words.
abbrev pub raw : ℕ → ℕ → ℕ → String → Field
raw k l m n = bits (32 * k + l) (32 * k + m) n

abbrev pub covers : Field → ℕ → Bool
covers f i = leb f.lsb i && leb i f.msb

-- The value `v` is written to a field, cut to its width.
unfoldable pub write_field : Field → Word → Word → Word
write_field f v w i = if covers f i then v (i - f.lsb) else w i

unfoldable pub read_field : Field → Word → Word
read_field f w i = if covers f (f.lsb + i) then w (f.lsb + i) else false
