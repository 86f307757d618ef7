-- ===== src/Reg/Laminar.antt =====
-- Registers whose fields do not interfere: two fields have no bit in common, but for pairs of which
-- it is known.
use emmc_driver.Base.{ℕ, ◌≡◌, ap, ◌⊎◌, inl, inr, Bool, true, ◌&&◌, ◌||◌, List, [], ◌∷◌, ltb, arith}
use emmc_driver.Reg.{Word, Field, Layout, write_field, read_field}

abbrev pub apart : Field → Field → Bool
apart f g = ltb f.msb g.lsb || ltb g.msb f.lsb

-- `known f g`: the two may have bits in common.
abbrev pub settled_pair : (Field → Field → Bool) → Field → Field → Bool
settled_pair known f g = apart f g || known f g

-- a test of all elements
module _ {A : Type 0} where
  abbrev pub every : (A → Bool) → List A → Bool
  every p [] = true
  every p (x ∷ xs) = p x && every p xs

  abbrev pub Member : A → List A → Type 0
  Member x [] = ⊥
  Member x (y ∷ ys) = (x ≡ y) ⊎ Member x ys

  pub every-Member :
      (p : A → Bool) (xs : List A) (x : A) → every p xs ≡ true → Member x xs → p x ≡ true
  every-Member p [] x e m = absurd m
  every-Member p (y ∷ ys) x e (inl s) = ground (arith, ap p s)
  every-Member p (y ∷ ys) x e (inr m) = every-Member p ys x (ground arith) m

abbrev pub is_settled : (Field → Field → Bool) → Layout → Bool
is_settled known l = every (λ f. every (settled_pair known f) l) l

pub pair-is_settled :
    (known : Field → Field → Bool) (l : Layout) (f g : Field)
    → is_settled known l ≡ true
    → Member f l
    → Member g l
    → settled_pair known f g ≡ true
pair-is_settled known l f g e a b =
    every-Member (settled_pair known f) l g
      (every-Member (λ f. every (settled_pair known f) l) l f e a) b

-- Writing one field keeps what is read of another one that has no bit in common with it.
pub read_field-write_field :
    (f g : Field) (v w : Word)
    → apart f g ≡ true
    → (i : ℕ) → read_field g (write_field f v w) i ≡ read_field g w i
unfolding read_field write_field
read_field-write_field f g v w a i = ground arith
