-- ===== src/Prelude/Map.antt =====
-- A Go map with text keys as an association list. What a `range` over it sees first is left to the
-- definitions that iterate: they take the order as an argument.
use mathlib.Core.Path.{◌≡◌, refl}
use mathlib.Core.List.{List, [], ◌∷◌}
use mathlib.Core.Option.{Option, none, some}
use native.Mathlib.Omega.{arith}
use dbexplain.Prelude.Tests.{if◌then◌else◌}
use dbexplain.Prelude.Text.{Text, text_eq, text_eq_iff}

module _ {ℓ} {V : Type ℓ} where
  -- v, ok := m[k]
  unfoldable pub lookup : Text → List (Text × V) → Option V
  lookup k [] = none
  lookup k ((j, v) ∷ m) = if text_eq j k then some v else lookup k m

  -- m[k] = v
  unfoldable pub insert : Text → V → List (Text × V) → List (Text × V)
  insert k v [] = (k, v) ∷ []
  insert k v ((j, w) ∷ m) = if text_eq j k then (k, v) ∷ m else (j, w) ∷ insert k v m

  -- for k, v := range n { m[k] = v }
  unfoldable pub insert_all : List (Text × V) → List (Text × V) → List (Text × V)
  insert_all m [] = m
  insert_all m ((k, v) ∷ n) = insert_all (insert k v m) n

  -- Each key stands in the list at most once.
  abbrev pub IsMap : List (Text × V) → Type ℓ
  IsMap [] = Unit
  IsMap ((k, v) ∷ m) = (lookup k m ≡ none) × IsMap m

  pub lookup-insert :
      (k j : Text) (v : V) (m : List (Text × V))
      → lookup j (insert k v m) ≡ (if text_eq k j then some v else lookup j m)
  unfolding lookup insert
  lookup-insert k j v [] = refl
  lookup-insert k j v ((i, w) ∷ m) =
      ground (arith, text_eq_iff k j, text_eq_iff i k, text_eq_iff i j, lookup-insert k j v m)

  pub insert-IsMap : (k : Text) (v : V) (m : List (Text × V)) → IsMap m → IsMap (insert k v m)
  unfolding lookup insert
  insert-IsMap k v [] h = (refl, tt)
  insert-IsMap k v ((j, w) ∷ m) h =
      ground
        (arith, text_eq_iff j k, text_eq_iff k j, insert-IsMap k v m h.1, lookup-insert k j v m)

  -- The entries of `n` win over those of `m`.
  pub lookup-insert_all :
      (k : Text) (m n : List (Text × V))
      → IsMap n
      → lookup k (insert_all m n) ≡ (elim (lookup k n) [ none ↦ lookup k m | some v ↦ some v ])
  unfolding lookup insert_all
  lookup-insert_all k m [] h = refl
  lookup-insert_all k m ((j, v) ∷ n) h =
      ground (
        arith,
        lookup-insert_all k (insert j v m) n h.1,
        lookup-insert j k v m,
        text_eq_iff j k,
        h.0,
      )
