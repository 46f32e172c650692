-- ===== src/SqlAst/Result.antt =====
-- The outcome of a run of the lexer or the parser of src/internal/sqlast, and postconditions on it.
-- `failed` is an error, whose text is not modelled; `out_of_fuel` belongs to the model alone.
use dbexplain.Prelude.{Bool, true, false, if◌then◌else◌, ◌≡◌, ◌≢◌, refl}

pub data Result {ℓ} (A : Type ℓ) : Type ℓ where
  ok : A → Result A
  failed out_of_fuel : Result A

-- The run kept within its fuel, and `P` holds of its value if it has one.
abbrev pub Ensures {ℓ} : {A : Type ℓ} → (A → Type 0) → Result A → Type 0
Ensures P (ok a) = P a
Ensures P failed = Unit
Ensures P out_of_fuel = ⊥

module _ {ℓ κ} {A : Type ℓ} {B : Type κ} where
  abbrev pub bind : Result A → (A → Result B) → Result B
  bind (ok a) f = f a
  bind failed f = failed
  bind out_of_fuel f = out_of_fuel

  pub Ensures-bind :
      (P : A → Type 0) (Q : B → Type 0) (r : Result A) (f : A → Result B)
      → Ensures P r
      → ((a : A) → P a → Ensures Q (f a))
      → Ensures Q (bind r f)
  Ensures-bind P Q (ok a) f h k = k a h
  Ensures-bind P Q failed f h k = tt
  Ensures-bind P Q out_of_fuel f h k = elim h [ ]

module _ {ℓ} {A : Type ℓ} (P : A → Type 0) where
  pub Ensures-if :
      (b : Bool) (x y : Result A)
      → (b ≡ true → Ensures P x)
      → (b ≡ false → Ensures P y)
      → Ensures P (if b then x else y)
  Ensures-if true x y h k = h refl
  Ensures-if false x y h k = k refl

  pub Ensures-weaken :
      (Q : A → Type 0) (r : Result A) → Ensures P r → ((a : A) → P a → Q a) → Ensures Q r
  Ensures-weaken Q (ok a) h k = k a h
  Ensures-weaken Q failed h k = tt
  Ensures-weaken Q out_of_fuel h k = elim h [ ]

  pub Ensures-returns : (r : Result A) → Ensures P r → r ≢ out_of_fuel
  Ensures-returns (ok a) h e = cc
  Ensures-returns failed h e = cc
  Ensures-returns out_of_fuel h e = elim h [ ]

  pub Ensures-ok : (r : Result A) (a : A) → Ensures P r → r ≡ ok a → P a
  Ensures-ok r a h e = rw e at h
