-- ===== src/Session/Post.antt =====
-- What holds of a session behind the steps of server/src/device-impl.h, with what they give back:
-- rules for the parts of a sequence of steps.
use emmc_driver.Base.{
  ◌≡◌, refl, Bool, true, false, Outcome, done, throws, Method, ◌>>=◌, if◌then◌else◌, continue,
}
use emmc_driver.Session.{Session, pure, get}
use emmc_driver.Session.Keep.{Keeps}

-- the session and what is given back satisfy `Q`, unless the step throws
abbrev pub Post : {A : Type 0} → (A → Session → Type 0) → Session × Outcome A → Type 0
Post Q (s, done a) = Q a s
Post Q (s, throws e) = Unit {0}

pub record Leaves {A : Type 0} (P : Session → Type 0) (Q : A → Session → Type 0)
    (m : Method Session A) : Type 0 where
  pub leave : (s : Session) → P s → Post Q (m s)

after :
    {A B : Type 0} {R : A → Session → Type 0} {Q : B → Session → Type 0} (f : A → Method Session B)
    (r : Session × Outcome A)
    → ((a : A) → Leaves (R a) Q (f a))
    → Post R r
    → Post Q (continue r f)
after f (s, done a) kf p = (kf a).leave s p
after f (s, throws e) kf p = tt

pub bind-Leaves :
    {A B : Type 0} {P : Session → Type 0} {R : A → Session → Type 0} {Q : B → Session → Type 0}
    {m : Method Session A} {f : A → Method Session B}
    → Leaves P R m
    → ((a : A) → Leaves (R a) Q (f a))
    → Leaves P Q (m >>= f)
bind-Leaves {m = m} {f = f} km kf = record { leave = λ s p. after f (m s) kf (km.leave s p) }

kept : {A : Type 0} (P : Session → Type 0) (r : Session × Outcome A) → P r.0 → Post (λ a. P) r
kept P (s, done a) p = p
kept P (s, throws e) p = tt

-- a step whose effect does not depend on what it gives back
pub state-Leaves :
    {A : Type 0} {P Q : Session → Type 0} {m : Method Session A}
    → ((s : Session) → P s → Q (m s).0)
    → Leaves P (λ a. Q) m
state-Leaves {Q = Q} {m = m} h = record { leave = λ s p. kept Q (m s) (h s p) }

pub keep-Leaves :
    {A : Type 0} {P : Session → Type 0} {m : Method Session A} → Keeps P m → Leaves P (λ a. P) m
keep-Leaves {P = P} {m = m} k = record { leave = λ s p. kept P (m s) (k.keep s p) }

pub then-Leaves :
    {A B : Type 0} {P : Session → Type 0} {Q : B → Session → Type 0} {m : Method Session A}
    {f : A → Method Session B}
    → Keeps P m
    → ((a : A) → Leaves P Q (f a))
    → Leaves P Q (m >>= f)
then-Leaves km kf = bind-Leaves (keep-Leaves km) kf

pub if-Leaves :
    {A : Type 0} {P : Session → Type 0} {Q : A → Session → Type 0} (b : Bool)
    {m k : Method Session A}
    → (b ≡ true → Leaves P Q m)
    → (b ≡ false → Leaves P Q k)
    → Leaves P Q (if b then m else k)
if-Leaves true km kk = km refl
if-Leaves false km kk = kk refl

pub pure-Leaves :
    {A : Type 0} {P : Session → Type 0} {Q : A → Session → Type 0} (a : A)
    → ((s : Session) → P s → Q a s)
    → Leaves P Q (pure a)
pure-Leaves a q = record { leave = q }

pub get-Leaves :
    {A : Type 0} {P : Session → Type 0} (f : Session → A)
    → Leaves P (λ a s. P s × (a ≡ f s)) (get f)
get-Leaves f = record { leave = λ s p. (p, refl) }

weaken :
    {A : Type 0} (Q : A → Session → Type 0) {R : A → Session → Type 0} (r : Session × Outcome A)
    → ((a : A) (s : Session) → Q a s → R a s)
    → Post Q r
    → Post R r
weaken Q (s, done a) h p = h a s p
weaken Q (s, throws e) h p = tt

pub weaken-Leaves :
    {A : Type 0} {P : Session → Type 0} {Q R : A → Session → Type 0} {m : Method Session A}
    → ((a : A) (s : Session) → Q a s → R a s)
    → Leaves P Q m
    → Leaves P R m
weaken-Leaves {Q = Q} {m = m} h k = record { leave = λ s p. weaken Q (m s) h (k.leave s p) }

-- nothing of the session is asked for
abbrev pub Any : Session → Type 0
Any s = Unit {0}

pub all-Leaves : {A : Type 0} (m : Method Session A) → Leaves Any (λ a. Any) m
all-Leaves m = state-Leaves (λ s p. tt)
