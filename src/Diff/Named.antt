-- ===== src/Diff/Named.antt =====
-- The maps by names in lower case of `diffColumns`, `diffIndexes` and `diffFKs` of
-- src/internal/diff/diff.go, and their loops over one map that look into the other. The loops go over a
-- map in the order of insertion; the sorting behind them hides the order.
use dbexplain.Prelude.{
  List, [], ◌∷◌, ◌++◌, Option, none, some, Bool-cases, true, false, ◌≡◌, ◌≢◌, ◌↔◌, inl, inr, refl,
  ap, sym, ◌∙◌,
}
use dbexplain.Prelude.Text.{Text, text_eq, text_eq_refl, text_eq→eq, to_lower, lower_byte}
use dbexplain.Prelude.Map.{lookup, insert, IsMap, insert-IsMap}

module _ {ℓ} {A : Type ℓ} where
  unfoldable pub named_from : (A → Text) → List (Text × A) → List A → List (Text × A)
  unfolding insert lower_byte
  named_from name m [] = m
  named_from name m (a ∷ l) = named_from name (insert (to_lower (name a)) a m) l

  -- Of two entries of one name the later one stays.
  unfoldable pub by_name : (A → Text) → List A → List (Text × A)
  unfolding named_from
  by_name name l = named_from name [] l

  named_from-IsMap :
      (name : A → Text) (m : List (Text × A)) (l : List A) → IsMap m → IsMap (named_from name m l)
  unfolding named_from
  named_from-IsMap name m [] h = h
  named_from-IsMap name m (a ∷ l) h =
      named_from-IsMap name (insert (to_lower (name a)) a m) l
        (insert-IsMap (to_lower (name a)) a m h)

  pub by_name-IsMap : (name : A → Text) (l : List A) → IsMap (by_name name l)
  unfolding by_name
  by_name-IsMap name l = named_from-IsMap name [] l tt

module _ {ℓ} {A : Type ℓ} (j k : Text) (b : A) (m : List (Text × A)) where
  lookup_head : text_eq j k ≡ true → lookup k ((j, b) ∷ m) ≡ some b
  unfolding lookup
  lookup_head t = rw t refl

  lookup_tail : text_eq j k ≡ false → lookup k ((j, b) ∷ m) ≡ lookup k m
  unfolding lookup
  lookup_tail t = rw t refl

  lookup_later : (a : A) → lookup j m ≡ none → lookup k m ≡ some a → lookup k ((j, b) ∷ m) ≡ some a
  lookup_later a new g = elim (Bool-cases (text_eq j k)) [
    | inl t ↦ let e = text_eq→eq j k t in absurd (clash (sym new ∙ ap (λ i. lookup i m) e ∙ g))
    | inr t ↦ lookup_tail t ∙ g
  ]
    where
      clash : none ≡ some a → ⊥
      clash e = cc

-- for name, a := range m { b, exists := other[name]; ... }
module _ {ℓ κ} {A : Type ℓ} {C : Type κ} (report : A → Option A → List C) where
  unfoldable pub each : List (Text × A) → List (Text × A) → List C
  unfolding lookup
  each other [] = []
  each other ((name, a) ∷ m) = report a (lookup name other) ++ each other m

  append_nil : (l m : List C) → l ++ m ≡ [] → (l ≡ []) × (m ≡ [])
  append_nil [] m e = (refl, e)
  append_nil (c ∷ l) m e = absurd cc

  each_silent :
      (other m : List (Text × A)) (k : Text) (a : A)
      → IsMap m
      → each other m ≡ []
      → lookup k m ≡ some a
      → report a (lookup k other) ≡ []
  unfolding each lookup
  each_silent other [] k a h e f = absurd cc
  each_silent other ((j, b) ∷ m) k a (new, h) e f =
      let (first, rest) = append_nil (report b (lookup j other)) (each other m) e in
      elim (Bool-cases (text_eq j k)) [
        | inl t ↦ same (text_eq→eq j k t) (sym (lookup_head j k b m t) ∙ f) first
        | inr t ↦ each_silent other m k a h rest (sym (lookup_tail j k b m t) ∙ f)
      ]
    where
      same :
          j ≡ k → some b ≡ some a → report b (lookup j other) ≡ [] → report a (lookup k other) ≡ []
      same e g first = cc

  silent_each :
      (other m : List (Text × A))
      → IsMap m
      → ((k : Text) (a : A) → lookup k m ≡ some a → report a (lookup k other) ≡ [])
      → each other m ≡ []
  unfolding each lookup
  silent_each other [] h f = refl
  silent_each other ((j, b) ∷ m) (new, h) f =
      append_nils (f j b (lookup_head j j b m (text_eq_refl j)))
        (silent_each other m h (λ k a g. f k a (lookup_later j k b m a new g)))
    where
      append_nils :
          report b (lookup j other) ≡ []
          → each other m ≡ []
          → report b (lookup j other) ++ each other m ≡ []
      append_nils e g = rw (e, g) refl

-- Nothing at a name in either map, or two entries that are related.
abbrev pub Agree {ℓ} : {A : Type ℓ} → (A → A → Type 0) → Option A → Option A → Type 0
Agree R none none = Unit
Agree R (some a) (some b) = R a b
Agree R _ _ = ⊥

-- Two loops, each over one map, that report an entry which the other map lacks, and between them
-- report nothing on two entries exactly if they are related.
module _ {ℓ κ} {A : Type ℓ} {C : Type κ} (removed added : A → Option A → List C)
    (R : A → A → Type 0) (removed-none : (a : A) → removed a none ≢ [])
    (added-none : (b : A) → added b none ≢ [])
    (removed-some : (a b : A) → R a b → removed a (some b) ≡ [])
    (added-some : (a b : A) → R a b → added b (some a) ≡ [])
    (related : (a b : A) → removed a (some b) ≡ [] → added b (some a) ≡ [] → R a b) where
  silent-Agree :
      (o p : Option A)
      → ((a : A) → o ≡ some a → removed a p ≡ [])
      → ((b : A) → p ≡ some b → added b o ≡ [])
      → Agree R o p
  silent-Agree none none f g = tt
  silent-Agree none (some b) f g = added-none b (g b refl)
  silent-Agree (some a) none f g = removed-none a (f a refl)
  silent-Agree (some a) (some b) f g = related a b (f a refl) (g b refl)

  Agree-old : (o p : Option A) (a : A) → Agree R o p → o ≡ some a → removed a p ≡ []
  Agree-old none p a h e = absurd cc
  Agree-old (some c) none a h e = absurd h
  Agree-old (some c) (some b) a h e = let q = removed-some c b h in cc

  Agree-new : (o p : Option A) (b : A) → Agree R o p → p ≡ some b → added b o ≡ []
  Agree-new o none b h e = absurd cc
  Agree-new none (some c) b h e = absurd h
  Agree-new (some a) (some c) b h e = let q = added-some a c h in cc

  pub both_nil_iff :
      (old new : List (Text × A))
      → IsMap old
      → IsMap new
      → (each removed new old ++ each added old new ≡ [])
        ↔ ((k : Text) → Agree R (lookup k old) (lookup k new))
  both_nil_iff old new h h' = (
    λ e k.
        let (first, rest) = append_nil removed (each removed new old) (each added old new) e in
        silent-Agree (lookup k old) (lookup k new)
          (λ a f. each_silent removed new old k a h first f)
          (λ b f. each_silent added old new k b h' rest f),
    λ agree.
        nils
          (silent_each removed new old h
            (λ k a f. Agree-old (lookup k old) (lookup k new) a (agree k) f))
          (silent_each added old new h'
            (λ k b f. Agree-new (lookup k old) (lookup k new) b (agree k) f)),
  )
    where
      nils : {l m : List C} → l ≡ [] → m ≡ [] → l ++ m ≡ []
      nils e g = rw (e, g) refl
