-- ===== src/Session/Keep.antt =====
-- What a sequence of steps of a session keeps: rules for its parts, with which the steps of
-- server/src/device-impl.h are gone through.
use emmc_driver.Base.{
  Bool, true, false, Outcome, done, throws, Method, ◌>>=◌, ◌>>◌, if◌then◌else◌, continue,
}
use emmc_driver.Session.{Session, pure, fail, get}

-- A step keeps a predicate where the session satisfies it afterwards if it did so before, also where
-- the step throws.
pub record Keeps {A : Type 0} (P : Session → Type 0) (m : Method Session A) : Type 0 where
  pub keep : (s : Session) → P s → P (m s).0

pub after :
    {A B : Type 0} (P : Session → Type 0) (f : A → Method Session B) (r : Session × Outcome A)
    → ((a : A) → Keeps P (f a))
    → P r.0
    → P (continue r f).0
after P f (s, done a) kf p = (kf a).keep s p
after P f (s, throws e) kf p = p

module _ {P : Session → Type 0} where
  pub bind-Keeps :
      {A B : Type 0} {m : Method Session A} {f : A → Method Session B}
      → Keeps P m
      → ((a : A) → Keeps P (f a))
      → Keeps P (m >>= f)
  bind-Keeps {m = m} {f = f} km kf = record { keep = λ s p. after P f (m s) kf (km.keep s p) }

  pub then-Keeps :
      {A B : Type 0} {m : Method Session A} {k : Method Session B}
      → Keeps P m
      → Keeps P k
      → Keeps P (m >> k)
  then-Keeps km kk = bind-Keeps km (λ a. kk)

  pub if-Keeps :
      {A : Type 0} (b : Bool) {m k : Method Session A}
      → Keeps P m
      → Keeps P k
      → Keeps P (if b then m else k)
  if-Keeps true km kk = km
  if-Keeps false km kk = kk

  pub pure-Keeps : {A : Type 0} (a : A) → Keeps P (pure a)
  pure-Keeps a = record { keep = λ s p. p }

  pub get-Keeps : {A : Type 0} (f : Session → A) → Keeps P (get f)
  get-Keeps f = record { keep = λ s p. p }

  pub fail-Keeps : {A : Type 0} (r : Outcome A) → Keeps P (fail r)
  fail-Keeps r = record { keep = λ s p. p }

pub ruleset keep_rules = (bind-Keeps, if-Keeps, pure-Keeps, get-Keeps, fail-Keeps)
