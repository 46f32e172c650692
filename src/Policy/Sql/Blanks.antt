-- ===== src/Policy/Sql/Blanks.antt =====
-- What `normalizeWhitespace` of src/internal/policy/policy.go makes of a text, word by word.
use dbexplain.Prelude.{
  ℕ, true, false, not, List, [], ◌∷◌, ◌++◌, is_empty, keep, if◌then◌else◌, ◌≡◌, refl, sym, ap,
  append-nil, ◌∙◌, inl, inr, Bool-cases,
}
use dbexplain.Prelude.Text.{Text, trim_space, trim_left, trim_right, trim_cons}
use dbexplain.Policy.Sql.{is_blank, collapse, normalize_whitespace}

-- The texts between the blanks: the first, and those that follow.
abbrev pub fields : Text → Text × List Text
fields [] = ([], [])
fields (c ∷ s) = let (w, ws) = fields s in if is_blank c then ([], w ∷ ws) else (c ∷ w, ws)

-- The words, with one blank between two.
abbrev pub unwords : List Text → Text
unwords [] = []
unwords (w ∷ []) = w
unwords (w ∷ v ∷ ws) = w ++ 32 ∷ unwords (v ∷ ws)

abbrev pub filled : List Text → List Text
filled ws = keep (λ w. not (is_empty w)) ws

-- The words of a text with one blank between two, and no white space at either end.
abbrev pub squeezed : Text → Text
squeezed s = trim_space (unwords (filled ((fields s).0 ∷ (fields s).1)))

-- The words behind a blank, where there are any.
abbrev behind : List Text → Text
behind [] = []
behind (w ∷ ws) = 32 ∷ unwords (w ∷ ws)

unwords-cons : (w : Text) (ws : List Text) → unwords (w ∷ ws) ≡ w ++ behind ws
unwords-cons w [] = sym (append-nil w)
unwords-cons w (v ∷ ws) = refl

trim_right-behind :
    (s : Text) (ws : List Text)
    → trim_right s ≡ trim_right (unwords ws)
    → trim_right (32 ∷ s) ≡ trim_right (behind ws)
trim_right-behind s [] h = ap (trim_cons 32) h
trim_right-behind s (w ∷ ws) h = ap (trim_cons 32) h

trim_right-append :
    (w s t : Text) → trim_right s ≡ trim_right t → trim_right (w ++ s) ≡ trim_right (w ++ t)
trim_right-append [] s t h = h
trim_right-append (c ∷ w) s t h = ap (trim_cons c) (trim_right-append w s t h)

-- What the loop has written after a blank, and elsewhere, but for white space at the end.
Written : Text → Type 0
Written s =
    (trim_right (collapse true s) ≡ trim_right (unwords (filled ((fields s).0 ∷ (fields s).1))))
    × (trim_right (collapse false s) ≡ trim_right ((fields s).0 ++ behind (filled (fields s).1)))

Written-step : (c : ℕ) (s : Text) → Written s → Written (c ∷ s)
unfolding Written collapse
Written-step c s (h, k) = elim (Bool-cases (is_blank c)) [
  | inl b ↦ rw b (h, trim_right-behind (collapse true s) (filled ((fields s).0 ∷ (fields s).1)) h)
  | inr b ↦
      let written = ap (trim_cons c) k in
      rw b (
        written ∙ ap trim_right (sym (unwords-cons (c ∷ (fields s).0) (filled (fields s).1))),
        written,
      )
]

collapse-Written : (s : Text) → Written s
unfolding Written collapse
collapse-Written [] = (refl, refl)
collapse-Written (c ∷ s) = Written-step c s (collapse-Written s)

-- A blank in front does not outlive the trimming.
trim_left-blank : (s : Text) → trim_left (trim_cons 32 s) ≡ trim_left s
trim_left-blank [] = refl
trim_left-blank (d ∷ s) = refl

trim_space-behind : (ws : List Text) → trim_space (behind ws) ≡ trim_space (unwords ws)
trim_space-behind [] = refl
trim_space-behind (w ∷ ws) = trim_left-blank (trim_right (unwords (w ∷ ws)))

trim_space-first :
    (w : Text) (ws : List Text)
    → trim_space (w ++ behind (filled ws)) ≡ trim_space (unwords (filled (w ∷ ws)))
trim_space-first [] ws = trim_space-behind (filled ws)
trim_space-first (c ∷ w) ws = ap trim_space (sym (unwords-cons (c ∷ w) (filled ws)))

-- The loop over the bytes, which keeps one blank of each run, leaves the words.
pub normalize_whitespace-squeezed : (s : Text) → normalize_whitespace s ≡ squeezed s
unfolding normalize_whitespace Written
normalize_whitespace-squeezed s =
    ap trim_left (collapse-Written s).1 ∙ trim_space-first (fields s).0 (fields s).1
