-- ===== src/SqlGuard/Limit/Trimmed.antt =====
-- What the trimming functions of Go that `AutoLimit` of src/internal/sqlguard/sqlguard.go calls take
-- away.
use dbexplain.Prelude.{
  ℕ, Bool, true, ◌==◌, ◌||◌, [], ◌∷◌, ◌++◌, All, if◌then◌else◌, ◌≡◌, refl, sym, ap, ◌∙◌, inl, inr,
  Bool-cases, arith, append-nil, append_assoc,
}
use dbexplain.Prelude.Text.{Text, is_unicode_space, trim_left, trim_right, trim_cons, trim_space}
use dbexplain.SqlGuard.Limit.{cutset, cut_cons, trim_cutset, trim_semicolon}

-- Bytes that pass the test alone.
abbrev pub AllPass : (ℕ → Bool) → Text → Type 0
AllPass p s = All (λ c. p c ≡ true) s

-- A semicolon or white space.
abbrev pub droppable : ℕ → Bool
droppable c = c == b';' || is_unicode_space c

AllPass-append : (p : ℕ → Bool) (s t : Text) → AllPass p s → AllPass p t → AllPass p (s ++ t)
AllPass-append p [] t h k = k
AllPass-append p (c ∷ s) t h k = (h.0, AllPass-append p s t h.1 k)

pub AllPass-weaken :
    (p q : ℕ → Bool) (s : Text) → ((c : ℕ) → p c ≡ true → q c ≡ true) → AllPass p s → AllPass q s
AllPass-weaken p q [] w h = tt
AllPass-weaken p q (c ∷ s) w h = (w c h.0, AllPass-weaken p q s w h.1)

pub space-droppable : (c : ℕ) → is_unicode_space c ≡ true → droppable c ≡ true
space-droppable c h = ground arith

cutset-droppable : (c : ℕ) → cutset c ≡ true → droppable c ≡ true
cutset-droppable c h = ground arith

-- The text is the trimmed one with bytes that pass the test around it.
abbrev pub Around : (ℕ → Bool) → Text → Text → Type 0
Around p s inner =
    (lead : Text) × (tail : Text) × (s ≡ lead ++ (inner ++ tail)) × AllPass p lead × AllPass p tail

Around-refl : (p : ℕ → Bool) (s : Text) → Around p s s
Around-refl p s = ([], [], sym (append-nil s), tt, tt)

pub Around-trans : (p : ℕ → Bool) (s t u : Text) → Around p s t → Around p t u → Around p s u
Around-trans p s t u (a, b, e, h, k) (c, d, f, h', k') = (
  a ++ c,
  d ++ b,
  e
      ∙ ap (λ x. a ++ (x ++ b)) f
      ∙ ap (λ x. a ++ x) (append_assoc c (u ++ d) b ∙ ap (λ x. c ++ x) (append_assoc u d b))
      ∙ sym (append_assoc a c (u ++ (d ++ b))),
  AllPass-append p a c h h',
  AllPass-append p d b k' k,
)

trim_left-Around : (s : Text) → Around is_unicode_space s (trim_left s)
trim_left-Around [] = Around-refl is_unicode_space []
trim_left-Around (c ∷ s) = elim (Bool-cases (is_unicode_space c)) [
  | inl e ↦
      let (a, b, f, h, k) = trim_left-Around s in rw e (c ∷ a, b, ap (λ x. c ∷ x) f, (e, h), k)
  | inr e ↦ rw e (Around-refl is_unicode_space (c ∷ s))
]

Behind : (ℕ → Bool) → Text → Text → Type 0
Behind p s inner = (tail : Text) × (s ≡ inner ++ tail) × AllPass p tail

Behind-Around : (p : ℕ → Bool) (s inner : Text) → Behind p s inner → Around p s inner
unfolding Behind
Behind-Around p s inner (tail, e, h) = ([], tail, e, tt, h)

Behind-cons :
    (p : ℕ → Bool) (c d : ℕ) (s t : Text) → Behind p s (d ∷ t) → Behind p (c ∷ s) (c ∷ d ∷ t)
unfolding Behind
Behind-cons p c d s t (tail, e, h) = (tail, ap (λ x. c ∷ x) e, h)

Behind-last :
    (p : ℕ → Bool) (c : ℕ) (s : Text)
    → Behind p s []
    → Behind p (c ∷ s) (if p c then [] else c ∷ [])
unfolding Behind
Behind-last p c s (tail, e, h) = elim (Bool-cases (p c)) [
  | inl k ↦ rw k (c ∷ tail, ap (λ x. c ∷ x) e, (k, h))
  | inr k ↦ rw k (tail, ap (λ x. c ∷ x) e, h)
]

trim_cons-Behind :
    (c : ℕ) (s t : Text)
    → Behind is_unicode_space s t
    → Behind is_unicode_space (c ∷ s) (trim_cons c t)
trim_cons-Behind c s [] h = Behind-last is_unicode_space c s h
trim_cons-Behind c s (d ∷ t) h = Behind-cons is_unicode_space c d s t h

trim_right-Behind : (s : Text) → Behind is_unicode_space s (trim_right s)
unfolding Behind
trim_right-Behind [] = ([], refl, tt)
trim_right-Behind (c ∷ s) = trim_cons-Behind c s (trim_right s) (trim_right-Behind s)

pub trim_space-Around : (s : Text) → Around is_unicode_space s (trim_space s)
trim_space-Around s =
    Around-trans is_unicode_space s (trim_right s) (trim_space s)
      (Behind-Around is_unicode_space s (trim_right s) (trim_right-Behind s))
      (trim_left-Around (trim_right s))

cut_cons-Behind : (c : ℕ) (s t : Text) → Behind cutset s t → Behind cutset (c ∷ s) (cut_cons c t)
cut_cons-Behind c s [] h = Behind-last cutset c s h
cut_cons-Behind c s (d ∷ t) h = Behind-cons cutset c d s t h

trim_cutset-Behind : (s : Text) → Behind cutset s (trim_cutset s)
unfolding Behind
trim_cutset-Behind [] = ([], refl, tt)
trim_cutset-Behind (c ∷ s) = cut_cons-Behind c s (trim_cutset s) (trim_cutset-Behind s)

trim_semicolon-Behind : (s : Text) → Behind droppable s (trim_semicolon s)
unfolding Behind
trim_semicolon-Behind [] = ([], refl, tt)
trim_semicolon-Behind (c ∷ []) = elim (Bool-cases (c == b';')) [
  | inl e ↦ rw e (c ∷ [], refl, (ground arith, tt))
  | inr e ↦ rw e ([], refl, tt)
]
trim_semicolon-Behind (c ∷ d ∷ s) =
    let (tail, e, h) = trim_semicolon-Behind (d ∷ s) in (tail, ap (λ x. c ∷ x) e, h)

Around-weaken :
    (p q : ℕ → Bool) (s t : Text)
    → ((c : ℕ) → p c ≡ true → q c ≡ true)
    → Around p s t
    → Around q s t
Around-weaken p q s t w (a, b, e, h, k) =
    (a, b, e, AllPass-weaken p q a w h, AllPass-weaken p q b w k)

pub trim_cutset-Around : (s : Text) → Around droppable s (trim_cutset s)
trim_cutset-Around s =
    Around-weaken cutset droppable s (trim_cutset s) cutset-droppable
      (Behind-Around cutset s (trim_cutset s) (trim_cutset-Behind s))

pub trim_semicolon-Around : (s : Text) → Around droppable s (trim_space (trim_semicolon s))
trim_semicolon-Around s =
    Around-trans droppable s (trim_semicolon s) (trim_space (trim_semicolon s))
      (Behind-Around droppable s (trim_semicolon s) (trim_semicolon-Behind s))
      (Around-weaken is_unicode_space droppable (trim_semicolon s) (trim_space (trim_semicolon s))
        space-droppable (trim_space-Around (trim_semicolon s)))
