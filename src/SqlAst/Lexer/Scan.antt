-- ===== src/SqlAst/Lexer/Scan.antt =====
-- What one token of src/internal/sqlast/lexer.go takes of the input.
use dbexplain.Prelude.{
  ℕ, ◌≤◌, ◌<◌, Bool, true, false, ◌||◌, ◌==◌, List, [], ◌∷◌, Option, none, some, Option-cases, ltb,
  ◌&&◌, inl, inr, if◌then◌else◌, length, ◌≡◌, ◌⊎◌, refl, arith,
}
use dbexplain.Prelude.Text.{Text, to_upper}
use dbexplain.Prelude.Map.{lookup}
use dbexplain.SqlAst.TokenType
use dbexplain.SqlAst.Lexer.{
  skip_whitespace, read_ident, read_number, read_quoted, Scanned, scan_less, scan_greater,
  scan_bang, scan_other, scan, prefixed, single_bytes, single_type, is_ident_byte, is_digit,
  is_letter, string_token, word_token, keyword_or_ident,
}

pub length-skip_whitespace : (s : Text) → length (skip_whitespace s) ≤ length s
unfolding skip_whitespace
length-skip_whitespace [] = omega arith
length-skip_whitespace (c ∷ s) = ground (arith, length-skip_whitespace s)

length-read_ident : (s : Text) → length (read_ident s).1 ≤ length s
unfolding read_ident
length-read_ident [] = omega arith
length-read_ident (c ∷ s) = ground (arith, length-read_ident s)

length-read_number : (f : Bool) (s : Text) → length (read_number f s).1 ≤ length s
unfolding read_number
length-read_number f [] = omega arith
length-read_number f (c ∷ s) = ground (arith, length-read_number f s, length-read_number true s)

-- The first byte of a word or a number is read.
read_ident-first :
    (c : ℕ) (s : Text) → is_ident_byte c ≡ true → length (read_ident (c ∷ s)).1 ≤ length s
unfolding read_ident
read_ident-first c s h = ground (arith, length-read_ident s)

read_number-first :
    (c : ℕ) (s : Text) → is_digit c ≡ true → length (read_number false (c ∷ s)).1 ≤ length s
unfolding read_number
read_number-first c s h = ground (arith, length-read_number false s)

-- What a string leaves is no longer than what stands behind its opening quote.
abbrev Leaves : Text → Option (Text × Text) → Type 0
Leaves s none = Unit
Leaves s (some (w, rest)) = length rest ≤ length s

prefixed-Leaves :
    (c : ℕ) (s t : Text) (o : Option (Text × Text))
    → length s ≤ length t
    → Leaves s o
    → Leaves t (prefixed c o)
prefixed-Leaves c s t none h k = tt
prefixed-Leaves c s t (some (w, rest)) h k = omega arith

if-Leaves :
    (s : Text) (b : Bool) (o o' : Option (Text × Text))
    → Leaves s o
    → Leaves s o'
    → Leaves s (if b then o else o')
if-Leaves s true o o' h k = h
if-Leaves s false o o' h k = k

read_quoted-Leaves : (q : ℕ) (s : Text) → Leaves s (read_quoted q s)
unfolding read_quoted
read_quoted-Leaves q [] = tt
read_quoted-Leaves q (c ∷ []) = if-Leaves (c ∷ []) (c == q) _ _ (omega arith) tt
read_quoted-Leaves q (c ∷ d ∷ s) =
    if-Leaves (c ∷ d ∷ s) (c == q) _ _
      (if-Leaves (c ∷ d ∷ s) (d == q) _ _
        (prefixed-Leaves q s (c ∷ d ∷ s) (read_quoted q s) (omega arith) (read_quoted-Leaves q s))
        (omega arith))
      (prefixed-Leaves c (d ∷ s) (c ∷ d ∷ s) (read_quoted q (d ∷ s)) (omega arith)
        (read_quoted-Leaves q (d ∷ s)))

-- The token is an error, or its first byte at least is read and it is not the end of the input.
abbrev pub Reads : Text → Scanned → Type 0
Reads s t = (t.type ≡ TokenType.error) ⊎ ((0 < t.type) × (length t.rest ≤ length s))

-- No keyword and no single byte is the end of the input.
abbrev all_positive {ℓ} : {K : Type ℓ} → List (K × ℕ) → Bool
all_positive [] = true
all_positive ((k, type) ∷ l) = ltb 0 type && all_positive l

keywords_positive : all_positive TokenType.keywords ≡ true
unfolding TokenType.keywords
keywords_positive = refl

lookup_positive :
    (k : Text) (m : List (Text × ℕ)) (type : ℕ)
    → all_positive m ≡ true
    → lookup k m ≡ some type
    → 0 < type
unfolding lookup
lookup_positive k [] type h e = cc
lookup_positive k ((j, n) ∷ m) type h e = ground (arith, lookup_positive k m type, h, e)

single_type_positive :
    (c : ℕ) (l : List (ℕ × ℕ)) (type : ℕ)
    → all_positive l ≡ true
    → single_type c l ≡ some type
    → 0 < type
unfolding single_type
single_type_positive c [] type h e = cc
single_type_positive c ((b, n) ∷ l) type h e = ground (arith, single_type_positive c l type, h, e)

string_token-Reads : (s : Text) (o : Option (Text × Text)) → Leaves s o → Reads s (string_token s o)
string_token-Reads s none h = inl refl
string_token-Reads s (some (w, rest)) h = inr (omega arith, h)

keyword_or_ident-Reads :
    (s word rest : Text) (o : Option ℕ)
    → length rest ≤ length s
    → lookup (to_upper word) TokenType.keywords ≡ o
    → Reads s (keyword_or_ident word rest o)
keyword_or_ident-Reads s word rest none h e = inr (omega arith, h)
keyword_or_ident-Reads s word rest (some type) h e =
    inr (lookup_positive (to_upper word) TokenType.keywords type keywords_positive e, h)

word_token-Reads : (s word rest : Text) → length rest ≤ length s → Reads s (word_token word rest)
word_token-Reads s word rest h = keyword_or_ident-Reads s word rest _ h refl

if-Reads :
    (s : Text) (b : Bool) (t u : Scanned)
    → (b ≡ true → Reads s t)
    → (b ≡ false → Reads s u)
    → Reads s (if b then t else u)
if-Reads s true t u h k = h refl
if-Reads s false t u h k = k refl

scan_less-Reads : (s : Text) → Reads s (scan_less s)
unfolding scan_less
scan_less-Reads [] = ground arith
scan_less-Reads (d ∷ s) = ground arith

scan_greater-Reads : (s : Text) → Reads s (scan_greater s)
unfolding scan_greater
scan_greater-Reads [] = ground arith
scan_greater-Reads (d ∷ s) = ground arith

scan_bang-Reads : (s : Text) → Reads s (scan_bang s)
unfolding scan_bang
scan_bang-Reads [] = ground arith
scan_bang-Reads (d ∷ s) = ground arith

starts_word : (c : ℕ) → (is_letter c || c == b'_') ≡ true → is_ident_byte c ≡ true
starts_word c h = ground (arith, h)

scan_other-Reads : (c : ℕ) (s : Text) → Reads s (scan_other c s)
unfolding scan_other
scan_other-Reads c s =
    if-Reads s (c == b'<') _ _ (λ _. scan_less-Reads s)
      λ _.
        if-Reads s (c == b'>') _ _ (λ _. scan_greater-Reads s)
          λ _.
            if-Reads s (c == b'!') _ _ (λ _. scan_bang-Reads s)
              λ _.
                if-Reads s (c == b'\'') _ _ (λ _. string_token-Reads s _ (read_quoted-Leaves c s))
                  λ _.
                    if-Reads s (c == b'"') _ _
                      (λ _. string_token-Reads s _ (read_quoted-Leaves c s))
                      λ _.
                        if-Reads s (is_digit c) _ _
                          (λ h. inr (omega arith, read_number-first c s h))
                          λ _.
                            if-Reads s (is_letter c || c == b'_') _ _
                              (λ h. word_token-Reads s _ _ (read_ident-first c s (starts_word c h)))
                              λ _. inl refl

pub scan-Reads : (c : ℕ) (s : Text) → Reads s (scan c s)
unfolding scan
scan-Reads c s = elim (Option-cases (single_type c single_bytes)) [
  | inl e ↦ rw e (scan_other-Reads c s)
  | inr (type, e) ↦ rw e (inr (single_type_positive c single_bytes type refl e, omega arith))
]
