-- ===== src/Cpg.antt =====
-- server/src/cpg.cc and server/src/cpg.h: the clock pulse generator of R-Car, which gates the clock of
-- a module by a bit of a control register, and shows it in a status register.
pub mod Enable
mod Tests
use emmc_driver.Base.{
  ℕ, zero, suc, ◌+◌, ◌-◌, Bool, true, false, not, List, [], ◌∷◌, Option, none, some, Errno, einval,
  enxio, Outcome, done, throws, Method, ◌==◌, ltb, leb, get_or, if◌then◌else◌,
}
use emmc_driver.Reg.{Word}
use emmc_driver.Reg.Ops.{Hw, put}

abbrev pub nr_modules : ℕ
nr_modules = 12

abbrev pub cpgwpr : ℕ
cpgwpr = 0x900

abbrev pub smstpcr : List ℕ
smstpcr =
    0x130 ∷ 0x134 ∷ 0x138 ∷ 0x13c ∷ 0x140 ∷ 0x144 ∷ 0x148 ∷ 0x14c ∷ 0x990 ∷ 0x994 ∷ 0x998 ∷ 0x99c
    ∷ []

abbrev pub mstpsr : List ℕ
mstpsr =
    0x030 ∷ 0x038 ∷ 0x040 ∷ 0x048 ∷ 0x04c ∷ 0x03c ∷ 0x1c0 ∷ 0x1c4 ∷ 0x9a0 ∷ 0x9a4 ∷ 0x9a8 ∷ 0x9ac
    ∷ []

-- `val &= ~(1 << bit)`
abbrev pub clear_bit : ℕ → Word → Word
clear_bit bit w i = if i == bit then false else w i

abbrev pub complement : Word → Word
complement w i = not (w i)

-- The write to a register, for which the complement of the value is written before.
abbrev pub write_protected : ℕ → Word → Hw → Hw
write_protected r w h = put r w (put cpgwpr (complement w) h)

-- The loop of enable_clock(): `status k r` is what is read of the register `r` at the poll `k`. The
-- result is an error; `none` is `L4_EOK`.
unfoldable pub poll_status : (ℕ → ℕ → Word) → ℕ → ℕ → ℕ → ℕ → Option Errno
poll_status status r bit zero k = some enxio
poll_status status r bit (suc i) k =
    let rest = poll_status status r bit i (k + 1) in if not (status k r bit) then none else rest

unfoldable pub enable_clock : (ℕ → ℕ → Word) → ℕ → ℕ → Hw → Hw × Option Errno
enable_clock status n bit h =
    if ltb (nr_modules - 1) n then (h, some einval) else if ltb 31 bit then (h, some einval) else (
      write_protected (get_or smstpcr n 0) (clear_bit bit (h.regs (get_or smstpcr n 0))) h,
      poll_status status (get_or mstpsr n 0) bit 20 0,
    )

unfoldable pub enable_register : ℕ → Word → Method Hw (Unit {0})
enable_register reg value h =
    if leb 0x1000 reg then (h, throws einval) else (write_protected reg value h, done tt)
