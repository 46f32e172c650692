-- ===== src/Prelude/Sort.antt =====
-- sort.Strings and sort.Slice by a name, and the keys of a map that stands for a set. Elements of one
-- name keep their order here, while sort.Slice may give them in any order; no theorem tells them apart.
use dbexplain.Prelude.{
  ltb, ◌==◌, ◌||◌, ◌&&◌, Bool, true, false, List, [], ◌∷◌, if◌then◌else◌, Bool-cases, ◌≡◌, ◌≢◌, ◌↔◌,
  inl, inr, refl, ap, ◌∙◌, arith,
}
use dbexplain.Prelude.Text.{Text, text_eq, text_eq→eq, one_of}

-- s < t
abbrev pub text_less : Text → Text → Bool
text_less s [] = false
text_less [] (d ∷ t) = true
text_less (c ∷ s) (d ∷ t) = ltb c d || (c == d && text_less s t)

module _ {ℓ} {A : Type ℓ} (name : A → Text) where
  abbrev place : A → List A → List A
  place a [] = a ∷ []
  place a (b ∷ l) =
      let rest = place a l in if text_less (name b) (name a) then b ∷ rest else a ∷ b ∷ l

  unfoldable pub sort_by : List A → List A
  sort_by [] = []
  sort_by (a ∷ l) = place a (sort_by l)

  place-ne : (a : A) (l : List A) → place a l ≢ []
  place-ne a [] e = cc
  place-ne a (b ∷ l) e = elim (Bool-cases (text_less (name b) (name a))) [
    | inl h ↦ absurd (ground (arith, h, e))
    | inr h ↦ absurd (ground (arith, h, e))
  ]

  pub sort_by_nil_iff : (l : List A) → (sort_by l ≡ []) ↔ (l ≡ [])
  unfolding sort_by
  sort_by_nil_iff [] = (λ e. e, λ e. e)
  sort_by_nil_iff (a ∷ l) = (λ e. absurd (place-ne a (sort_by l) e), λ e. absurd cc)

one_of-place :
    (k j : Text) (l : List Text) → one_of k (place (λ t. t) j l) ≡ (text_eq k j || one_of k l)
one_of-place k j [] = refl
one_of-place k j (b ∷ l) = elim (Bool-cases (text_less b j)) [
  | inl e ↦ rw e (ground (arith, one_of-place k j l))
  | inr e ↦ rw e refl
]

pub one_of-sort_by : (k : Text) (l : List Text) → one_of k (sort_by (λ t. t) l) ≡ one_of k l
unfolding sort_by
one_of-sort_by k [] = refl
one_of-sort_by k (j ∷ l) =
    one_of-place k j (sort_by (λ t. t) l) ∙ ap (λ b. text_eq k j || b) (one_of-sort_by k l)

-- m[k] = true, where each key is kept once.
abbrev pub add_key : Text → List Text → List Text
add_key k keys = if one_of k keys then keys else k ∷ keys

pub one_of-add_key :
    (k j : Text) (l : List Text) → one_of k (add_key j l) ≡ (text_eq k j || one_of k l)
one_of-add_key k j l = elim (Bool-cases (one_of j l)) [
  | inl t ↦ rw t (elim (Bool-cases (text_eq k j)) [
    | inl s ↦ rw s (ap (λ i. one_of i l) (text_eq→eq k j s) ∙ t)
    | inr s ↦ rw s refl
  ])
  | inr t ↦ rw t refl
]
