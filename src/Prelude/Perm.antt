-- ===== src/Prelude/Perm.antt =====
-- Searches and sums over a list do not depend on its order.
use mathlib.Core.Bool.{Bool, ◌||◌, Bool-set}
use mathlib.Core.List.{List, Perm, Permᴰ}
use mathlib.Core.Logic.{∥∥₁_elim}
use mathlib.Core.Path.{◌≡◌, refl, ◌∙◌}
use native.Mathlib.Omega.{arith}
use dbexplain.Prelude.Lists.{any}

module _ {ℓ} {A : Type ℓ} (p : A → Bool) where
  any-Permᴰ : {l l' : List A} → Permᴰ l l' → any p l ≡ any p l'
  any-Permᴰ Permᴰ.nil = refl
  any-Permᴰ (Permᴰ.cons e h) = cc (e, any-Permᴰ h)
  any-Permᴰ (Permᴰ.swap {l = l} e f) = rw (e, f) (||-swap _ _ (any p l))
    where
      ||-swap : (a b c : Bool) → a || (b || c) ≡ b || (a || c)
      ||-swap a b c = ground arith
  any-Permᴰ (Permᴰ.trans h k) = any-Permᴰ h ∙ any-Permᴰ k

  -- Whether some element passes the test is the same in every order.
  pub any-perm : {l l' : List A} → Perm l l' → any p l ≡ any p l'
  any-perm h = ∥∥₁_elim h (Bool-set _ _) any-Permᴰ
