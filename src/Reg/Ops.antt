-- ===== src/Reg/Ops.antt =====
-- Sequences of register writes, as the controllers are set up by them: each writes a value that may
-- depend on what the registers hold, or waits by Util::poll() (server/src/util.cc) for the
-- controller, which throws when the time is over. A register holds what was written to it last.
use emmc_driver.Base.{
  ℕ, ◌≡◌, refl, Bool, true, false, List, [], ◌∷◌, done, throws, eio, Method, ◌==◌, if◌then◌else◌,
  length, Bool-cases, inl, inr,
}
use emmc_driver.Reg.{Word, Field, Layout, write_field}
use Prim.Native.String.{String, compare}
use text.Mathlib.Text.{is_eq}

-- A write, with what the register held before.
pub record Change : Type 0 where
  pub offs : ℕ
  pub old : Word
  pub new : Word

-- The registers by their offsets, and the writes so far, the latest first.
pub record Hw : Type 0 where
  pub regs : ℕ → Word
  pub log : List Change

pub data Op : Type 0 where
  write_reg : ℕ → (Hw → Word) → Op
  await : Op

abbrev pub zeros : Word
zeros i = false

abbrev pub ones : Word
ones i = true

-- The field of a name; where there is none, it has no bits.
abbrev no_field : Field
no_field = record { lsb = 1; msb = 0; name = "" }

infixl 60 ◌!◌
abbrev pub ◌!◌ : Layout → String → Field
[] ! n = no_field
(f ∷ l) ! n = if is_eq (compare f.name n) then f else l ! n

abbrev pub set_named : Layout → String → Word → Word → Word
set_named l n v w = write_field (l ! n) v w

abbrev pub put : ℕ → Word → Hw → Hw
put r w h = record {
  regs = λ a. if a == r then w else h.regs a;
  log = record { offs = r; old = h.regs r; new = w } ∷ h.log;
}

-- `ready` says whether the controller is ready in time, by the number of writes before.
unfoldable pub run_ops : (ℕ → Bool) → List Op → Method Hw (Unit {0})
run_ops ready [] h = (h, done tt)
run_ops ready (write_reg r w ∷ os) h = run_ops ready os (put r (w h) h)
run_ops ready (await ∷ os) h =
    let rest = run_ops ready os h in if ready (length h.log) then rest else (h, throws eio)

-- the registers after all of the writes
unfoldable pub after_ops : List Op → Hw → Hw
after_ops [] h = h
after_ops (write_reg r w ∷ os) h = after_ops os (put r (w h) h)
after_ops (await ∷ os) h = after_ops os h

-- Where the controller is always ready in time, all is written.
pub run_ops-ready :
    (ready : ℕ → Bool) (os : List Op) (h : Hw)
    → ((n : ℕ) → ready n ≡ true)
    → run_ops ready os h ≡ (after_ops os h, done tt)
unfolding run_ops after_ops
run_ops-ready ready [] h k = refl
run_ops-ready ready (write_reg r w ∷ os) h k = run_ops-ready ready os (put r (w h) h) k
run_ops-ready ready (await ∷ os) h k = rw (k (length h.log)) (run_ops-ready ready os h k)

-- A property of the registers and the writes that each operation keeps is kept, also where the
-- controller is not ready in time.
abbrev pub OpsKeep : (Hw → Type 0) → List Op → Hw → Type 0
OpsKeep P [] h = Unit
OpsKeep P (write_reg r w ∷ os) h = P (put r (w h) h) × OpsKeep P os (put r (w h) h)
OpsKeep P (await ∷ os) h = OpsKeep P os h

pub run_ops-Keep :
    (P : Hw → Type 0) (ready : ℕ → Bool) (os : List Op) (h : Hw)
    → P h
    → OpsKeep P os h
    → P (run_ops ready os h).0
unfolding run_ops
run_ops-Keep P ready [] h p k = p
run_ops-Keep P ready (write_reg r w ∷ os) h p k = run_ops-Keep P ready os (put r (w h) h) k.0 k.1
run_ops-Keep P ready (await ∷ os) h p k = elim (Bool-cases (ready (length h.log))) [
  | inl yes' ↦ rw yes' (run_ops-Keep P ready os h p k)
  | inr no' ↦ rw no' p
]
