-- ===== src/Base/Throw.antt =====
-- Exceptions of the driver: `L4Re::throw_error` with its error code, and calls that change an
-- object before they throw. The object comes back beside what the call gave.
use mathlib.Core.Path.{◌≡◌, ap}
use mathlib.Core.Bool.{Bool, true, false}

-- The codes that the driver throws or returns (without their sign).
pub data Errno : Type 0 where
  eio einval enomem ebusy enoent enxio enodev eagain : Errno

pub data Outcome {ℓ} (A : Type ℓ) : Type ℓ where
  done : A → Outcome A
  throws : Errno → Outcome A

-- A method of an object with state `S`.
abbrev pub Method : Type 0 → Type 0 → Type 0
Method S A = S → S × Outcome A

-- what follows a call, given the state and the outcome that it left
abbrev pub continue : {S A B : Type 0} → S × Outcome A → (A → Method S B) → S × Outcome B
continue (s, done a) f = f a s
continue (s, throws e) f = (s, throws e)

infixl 5 ◌>>=◌ ◌>>◌
abbrev pub ◌>>=◌ : {S A B : Type 0} → Method S A → (A → Method S B) → Method S B
◌>>=◌ m f s = continue (m s) f

abbrev pub ◌>>◌ : {S A B : Type 0} → Method S A → Method S B → Method S B
m >> k = m >>= λ _. k

abbrev pub is_done {ℓ} : {A : Type ℓ} → Outcome A → Bool
is_done (done a) = true
is_done (throws e) = false

-- A sequence goes on after a call that is done, and stops at one that throws.
pub bind_done :
    {S A B : Type 0} (m : Method S A) (f : A → Method S B) {s s' : S} {a : A}
    → m s ≡ (s', done a)
    → (m >>= f) s ≡ f a s'
bind_done m f e = ap (λ r. continue r f) e

pub bind_throws :
    {S A B : Type 0} (m : Method S A) (f : A → Method S B) {s s' : S} {e : Errno}
    → m s ≡ (s', throws e)
    → (m >>= f) s ≡ (s', throws e)
bind_throws m f h = ap (λ r. continue r f) h
