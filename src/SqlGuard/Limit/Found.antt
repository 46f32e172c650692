-- ===== src/SqlGuard/Limit/Found.antt =====
-- Which texts `hasOuterLimit` of src/internal/sqlguard/sqlguard.go counts as limited.
use dbexplain.Prelude.{
  ℕ, suc, ◌-◌, Bool, true, false, not, ◌==◌, ◌&&◌, ◌||◌, List, [], ◌∷◌, ◌++◌, map, keep, any,
  if◌then◌else◌, ◌≡◌, ◌↔◌, ◌⊎◌, refl, sym, ap, ◌∙◌, inl, inr, Bool-cases, arith, append_assoc,
}
use dbexplain.Prelude.Text.{
  Text, codes, is_unicode_space, trim_left, trim_right, trim_cons, trim_space, contains, has_prefix,
  text_eq, text_eq_iff,
}
use dbexplain.Policy.Sql.{is_blank}
use dbexplain.SqlGuard.Limit.{outer_from, has_outer_limit, limit_words, has_suffix}
use dbexplain.SqlGuard.Limit.Trimmed.{AllPass, trim_space-Around}

-- Each byte with the number of parentheses that are open in front of it, where a closing one without
-- an opening one does not count.
abbrev pub with_depth : ℕ → Text → List (ℕ × ℕ)
with_depth d [] = []
with_depth d (c ∷ s) =
    (d, c) ∷ with_depth (if c == b'(' then suc d else if c == b')' then d - 1 else d) s

abbrev pub is_outside : ℕ × ℕ → Bool
is_outside (d, c) = d == 0 && (not (c == b'(') && not (c == b')'))

abbrev byte : ℕ × ℕ → ℕ
byte (d, c) = c

-- The bytes outside of all parentheses.
abbrev pub outside : Text → Text
outside s = map byte (keep is_outside (with_depth 0 s))

outer_from-with_depth :
    (d : ℕ) (s : Text) → outer_from d s ≡ map byte (keep is_outside (with_depth d s))
unfolding outer_from
outer_from-with_depth d [] = refl
outer_from-with_depth d (c ∷ s) = ground (
  arith,
  outer_from-with_depth d s,
  outer_from-with_depth (suc d) s,
  outer_from-with_depth (d - 1) s,
)

-- The text has the word's bytes in it, and behind them a blank, or white space to the end.
abbrev pub IsWordEnd : Text → Type 0
IsWordEnd b =
    ((c : ℕ) × (r : Text) × (b ≡ c ∷ r) × (is_blank c ≡ true)) ⊎ AllPass is_unicode_space b

abbrev pub HasLimit : Text → Type 0
HasLimit s = (a : Text) × (b : Text) × (s ≡ a ++ (codes "LIMIT" ++ b)) × IsWordEnd b

-- What `contains` finds.
has_prefix-rest : (s p : Text) → has_prefix s p ≡ true → (r : Text) × (s ≡ p ++ r)
has_prefix-rest s [] h = (s, refl)
has_prefix-rest [] (p ∷ ps) h = absurd cc
has_prefix-rest (c ∷ s) (p ∷ ps) h =
    let first : c ≡ p = ground arith in
    let (r, e) = has_prefix-rest s ps (ground arith) in
    (r, ap (λ x. x ∷ s) first ∙ ap (λ x. p ∷ x) e)

abbrev Split : Text → Text → Type 0
Split s p = (a : Text) × (r : Text) × (s ≡ a ++ (p ++ r))

contains-split : (s p : Text) → contains s p ≡ true → Split s p
contains-split [] p h = let (r, e) = has_prefix-rest [] p h in ([], r, e)
contains-split (c ∷ s) p h = elim (Bool-cases (has_prefix (c ∷ s) p)) [
  | inl e ↦ let (r, f) = has_prefix-rest (c ∷ s) p e in ([], r, f)
  | inr e ↦ let (a, r, f) = contains-split s p (rw e at h) in (c ∷ a, r, ap (λ x. c ∷ x) f)
]

has_prefix-append : (p r : Text) → has_prefix (p ++ r) p ≡ true
has_prefix-append [] r = refl
has_prefix-append (c ∷ p) r = ground (arith, has_prefix-append p r)

has_prefix-contains : (s p : Text) → has_prefix s p ≡ true → contains s p ≡ true
has_prefix-contains [] p h = h
has_prefix-contains (c ∷ s) p h = ground arith

or_right : (a b : Bool) → b ≡ true → a || b ≡ true
or_right true b h = refl
or_right false b h = h

contains-append : (s t p : Text) → contains t p ≡ true → contains (s ++ t) p ≡ true
contains-append [] t p h = h
contains-append (c ∷ s) t p h = or_right (has_prefix (c ∷ s ++ t) p) _ (contains-append s t p h)

split-contains : (a p r : Text) → contains (a ++ (p ++ r)) p ≡ true
split-contains a p r =
    contains-append a (p ++ r) p (has_prefix-contains (p ++ r) p (has_prefix-append p r))

has_suffix-split : (s p : Text) → has_suffix s p ≡ true → (a : Text) × (s ≡ a ++ p)
has_suffix-split [] [] h = ([], refl)
has_suffix-split [] (c ∷ p) h = absurd cc
has_suffix-split (c ∷ s) p h = elim (Bool-cases (text_eq (c ∷ s) p)) [
  | inl e ↦ ([], (text_eq_iff (c ∷ s) p).0 e)
  | inr e ↦ let (a, f) = has_suffix-split s p (rw e at h) in (c ∷ a, ap (λ x. c ∷ x) f)
]

has_suffix_self : (p : Text) → has_suffix p p ≡ true
has_suffix_self [] = refl
has_suffix_self (c ∷ p) = ground (arith, text_eq_iff (c ∷ p) (c ∷ p))

has_suffix-append : (a p : Text) → has_suffix (a ++ p) p ≡ true
has_suffix-append [] p = has_suffix_self p
has_suffix-append (c ∷ a) p = ground (arith, has_suffix-append a p)

-- What trimming leaves of a text that ends in a word and white space.
trim_right-white : (b : Text) → AllPass is_unicode_space b → trim_right b ≡ []
trim_right-white [] h = refl
trim_right-white (c ∷ b) h = rw (trim_right-white b h.1) (rw h.0)

trim_cons-word : (c d : ℕ) (a t : Text) → trim_cons c (a ++ d ∷ t) ≡ c ∷ (a ++ d ∷ t)
trim_cons-word c d [] t = refl
trim_cons-word c d (e ∷ a) t = refl

trim_right-word :
    (a w : Text) (d : ℕ) (t : Text) → trim_right w ≡ d ∷ t → trim_right (a ++ w) ≡ a ++ d ∷ t
trim_right-word [] w d t h = h
trim_right-word (c ∷ a) w d t h =
    ap (trim_cons c) (trim_right-word a w d t h) ∙ trim_cons-word c d a t

abbrev limit_word : Text
limit_word = codes "LIMIT"

trim_right-limit_word :
    (b : Text) → AllPass is_unicode_space b → trim_right (limit_word ++ b) ≡ limit_word
trim_right-limit_word b h = rw (trim_right-white b h)

has_suffix-trim_left : (a : Text) → has_suffix (trim_left (a ++ limit_word)) limit_word ≡ true
has_suffix-trim_left [] = refl
has_suffix-trim_left (c ∷ a) = elim (Bool-cases (is_unicode_space c)) [
  | inl e ↦ rw e (has_suffix-trim_left a)
  | inr e ↦ rw e (has_suffix-append (c ∷ a) limit_word)
]

has_suffix-limit_word :
    (a b : Text)
    → AllPass is_unicode_space b
    → has_suffix (trim_space (a ++ (limit_word ++ b))) limit_word ≡ true
has_suffix-limit_word a b h =
    ap (λ x. has_suffix (trim_left x) limit_word)
      (trim_right-word a (limit_word ++ b) _ _ (trim_right-limit_word b h))
    ∙ has_suffix-trim_left a

blank_cases :
    (w : ℕ → Bool)
    → (w 32 || (w 9 || (w 10 || (w 13 || false)))) ≡ true
    → (c : ℕ) × (is_blank c ≡ true) × (w c ≡ true)
blank_cases w h = elim (Bool-cases (w 32)) [
  | inl e ↦ (32, refl, e)
  | inr n1 ↦ elim (Bool-cases (w 9)) [
    | inl e ↦ (9, refl, e)
    | inr n2 ↦ elim (Bool-cases (w 10)) [
      | inl e ↦ (10, refl, e)
      | inr n3 ↦ (13, refl, ground arith)
    ]
  ]
]

blank_any :
    (w : ℕ → Bool) (c : ℕ)
    → is_blank c ≡ true
    → w c ≡ true
    → (w 32 || (w 9 || (w 10 || (w 13 || false)))) ≡ true
blank_any w c b h = ground arith

-- The two tests of the code, on the bytes outside of parentheses.
abbrev finds_limit : Text → Bool
finds_limit o = any (contains o) limit_words || has_suffix (trim_space o) limit_word

finds_limit-HasLimit : (o : Text) → finds_limit o ≡ true → HasLimit o
finds_limit-HasLimit o h = elim (Bool-cases (any (contains o) limit_words)) [
  | inl e ↦
      let (c, b, k) = blank_cases (λ c. contains o (limit_word ++ c ∷ [])) e in
      let (a, r, f) = contains-split o (limit_word ++ c ∷ []) k in
      (a, c ∷ r, f, inl (c, r, refl, b))
  | inr e ↦
      let (a, f) = has_suffix-split (trim_space o) limit_word (rw e at h) in
      let (lead, tail, g, _, white) = trim_space-Around o in
      (
        lead ++ a,
        tail,
        g
            ∙ ap (λ x. lead ++ (x ++ tail)) f
            ∙ ap (λ x. lead ++ x) (append_assoc a limit_word tail)
            ∙ sym (append_assoc lead a (limit_word ++ tail)),
        inr white,
      )
]

or_left : (a b : Bool) → a ≡ true → a || b ≡ true
or_left a b h = ground arith

HasLimit-finds_limit : (o : Text) → HasLimit o → finds_limit o ≡ true
HasLimit-finds_limit o (a, b, e, inl (c, r, f, k)) = or_left (any (contains o) limit_words) _ (
    blank_any (λ d. contains o (limit_word ++ d ∷ [])) c k
      (ap (λ x. contains x (limit_word ++ c ∷ [])) (e ∙ ap (λ x. a ++ (limit_word ++ x)) f)
        ∙ split-contains a (limit_word ++ c ∷ []) r))
HasLimit-finds_limit o (a, b, e, inr white) =
    or_right (any (contains o) limit_words) _
      (ap (λ x. has_suffix (trim_space x) limit_word) e ∙ has_suffix-limit_word a b white)

-- The test of the code finds LIMIT exactly where it stands outside of all parentheses, in front of a
-- blank or of white space to the end, whatever stands in front of it.
pub has_outer_limit_iff : (u : Text) → (has_outer_limit u ≡ true) ↔ HasLimit (outside u)
unfolding has_outer_limit
has_outer_limit_iff u =
    let same : outer_from 0 u ≡ outside u = outer_from-with_depth 0 u in
    (
      λ h. finds_limit-HasLimit (outside u) (sym (ap finds_limit same) ∙ h),
      λ h. ap finds_limit same ∙ HasLimit-finds_limit (outside u) h,
    )
