-- ===== src/SqlGuard/Explain/Bounds.antt =====
-- `stripExplainPrefix` shortens its text: what bounds the recursion of `Validate`.
use mathlib.Core.List.{tail}
use dbexplain.Prelude.{
  ℕ, zero, suc, ◌+◌, ◌-◌, ◌≤◌, ◌<◌, ◌≡◌, refl, sym, ap, ◌∙◌, Bool, true, false, ◌==◌, ◌&&◌, ◌||◌,
  [], ◌∷◌, Option, none, some, if◌then◌else◌, length, drop, arith, Bool-cases, Option-cases, inl,
  inr,
}
use dbexplain.Prelude.Text.{
  Text, codes, trim_space, trim_left, trim_right, trim_cons, to_upper, upper_byte, has_prefix,
}
use dbexplain.Policy.Sql.{is_blank, Mode, text, line, block}
use dbexplain.SqlGuard.Words.{skip_spaces, first_word, until_blank, drop_paren}
use dbexplain.SqlGuard.Explain.{
  skip_from, skip_sql_comments, token_run, next_token, Scan, plain, comment, quoted, scan_parens,
  skip_options, drop_equals, after_modifier, skip_modifiers, strip_options, starts_blank,
  strip_explain_prefix,
}

length-trim_left-le : (s : Text) → length (trim_left s) ≤ length s
length-trim_left-le [] = omega arith
length-trim_left-le (c ∷ s) = ground (arith, length-trim_left-le s)

length-trim_cons-le : (c : ℕ) (s : Text) → length (trim_cons c s) ≤ length s + 1
length-trim_cons-le c [] = ground arith
length-trim_cons-le c (d ∷ s) = omega arith

length-trim_right-le : (s : Text) → length (trim_right s) ≤ length s
length-trim_right-le [] = omega arith
length-trim_right-le (c ∷ s) =
    omega (arith, length-trim_cons-le c (trim_right s), length-trim_right-le s)

pub length-trim_space-le : (s : Text) → length (trim_space s) ≤ length s
length-trim_space-le s = omega (arith, length-trim_left-le (trim_right s), length-trim_right-le s)

length-skip_spaces-le : (s : Text) → length (skip_spaces s) ≤ length s
length-skip_spaces-le [] = omega arith
length-skip_spaces-le (c ∷ s) = ground (arith, length-skip_spaces-le s)

length-if-le :
    (b : Bool) (x y : Text) (n : ℕ) → length x ≤ n → length y ≤ n → length (if b then x else y) ≤ n
length-if-le true x y n h k = h
length-if-le false x y n h k = k

length-skip_from-le : (m : Mode) (s : Text) → length (skip_from m s) ≤ length s
unfolding skip_from
length-skip_from-le text [] = omega arith
length-skip_from-le text (c ∷ []) = omega arith
length-skip_from-le text (c ∷ d ∷ s) =
    length-if-le (c == b'/' && d == b'*') _ _ _ (omega (arith, length-skip_from-le block s)) (
      length-if-le (c == b'-' && d == b'-') _ _ _ (omega (arith, length-skip_from-le line s))
        (omega arith))
length-skip_from-le line [] = omega arith
length-skip_from-le line (c ∷ s) =
    length-if-le (c == 10) _ _ _ (omega (arith, length-skip_from-le text s))
      (omega (arith, length-skip_from-le line s))
length-skip_from-le block [] = omega arith
length-skip_from-le block (c ∷ []) = omega arith
length-skip_from-le block (c ∷ d ∷ s) =
    length-if-le (c == b'*' && d == b'/') _ _ _ (omega (arith, length-skip_from-le text s))
      (omega (arith, length-skip_from-le block (d ∷ s)))

length-token_run-le : (s : Text) → length (token_run s).1 ≤ length s
length-token_run-le [] = omega arith
length-token_run-le (c ∷ s) = ground (arith, length-token_run-le s)

length-next_token-le : (s : Text) → length (next_token s).1 ≤ length s
length-next_token-le s = omega (arith, length-token_run-le (skip_spaces s), length-skip_spaces-le s)

length-drop_equals-le : (s : Text) → length (drop_equals s) ≤ length s
length-drop_equals-le [] = omega arith
length-drop_equals-le (c ∷ s) = ground (arith, length-skip_spaces-le s)

-- What is left, if anything is, is no longer than `n`.
abbrev Within : ℕ → Option Text → Type 0
Within n none = Unit
Within n (some rest) = length rest ≤ n

Within-if :
    (b : Bool) (x y : Option Text) (n : ℕ) → Within n x → Within n y → Within n (if b then x else y)
Within-if true x y n h k = h
Within-if false x y n h k = k

Within-suc : (o : Option Text) (n : ℕ) → Within n o → Within (suc n) o
Within-suc none n h = tt
Within-suc (some rest) n h = omega arith

Within-scan_parens : (m : Scan) (d : ℕ) (s : Text) → Within (length s) (scan_parens m d s)
unfolding scan_parens
Within-scan_parens m d [] = tt
Within-scan_parens (quoted q) d (c ∷ s) =
    Within-if (c == q) _ _ _ (Within-suc _ _ (Within-scan_parens plain d s))
      (Within-suc _ _ (Within-scan_parens (quoted q) d s))
Within-scan_parens comment d (c ∷ []) = tt
Within-scan_parens comment d (c ∷ e ∷ s) =
    Within-if (c == b'*' && e == b'/') _ _ _
      (Within-suc _ _ (Within-suc _ _ (Within-scan_parens plain d s)))
      (Within-suc _ _ (Within-scan_parens comment d (e ∷ s)))
Within-scan_parens plain d (c ∷ []) =
    Within-if (c == b')' && d == 1) (some []) none 1 (omega arith) tt
Within-scan_parens plain d (c ∷ e ∷ s) =
    Within-if (c == b'/' && e == b'*') _ _ _
      (Within-suc _ _ (Within-suc _ _ (Within-scan_parens comment d s)))
      (Within-if (c == 39 || c == 34) _ _ _
        (Within-suc _ _ (Within-scan_parens (quoted c) d (e ∷ s)))
        (Within-if (c == b'(') _ _ _ (Within-suc _ _ (Within-scan_parens plain (suc d) (e ∷ s))) (
          Within-if (c == b')') _ _ _
            (Within-if (d == 1) (some (e ∷ s)) _ _ (omega arith)
              (Within-suc _ _ (Within-scan_parens plain (d - 1) (e ∷ s))))
            (Within-suc _ _ (Within-scan_parens plain d (e ∷ s))))))

length-scan_parens-le :
    (m : Scan) (d : ℕ) (s rest : Text) → scan_parens m d s ≡ some rest → length rest ≤ length s
length-scan_parens-le m d s rest h = rw h at (Within-scan_parens m d s)

length-skip_options-le : (s rest : Text) → skip_options s ≡ some rest → length rest ≤ length s
unfolding skip_options
length-skip_options-le [] rest h = ground arith
length-skip_options-le (c ∷ s) rest h = ground (arith, length-scan_parens-le plain 0 (c ∷ s) rest)

length-after_modifier-le : (tok rest : Text) → length (after_modifier tok rest) ≤ length rest
unfolding after_modifier
length-after_modifier-le tok rest = ground (
  arith,
  length-skip_spaces-le rest,
  length-skip_spaces-le (next_token (drop_equals (skip_spaces rest))).1,
  length-next_token-le (drop_equals (skip_spaces rest)),
  length-drop_equals-le (skip_spaces rest),
)

length-skip_modifiers-le : (f : ℕ) (s : Text) → length (skip_modifiers f s) ≤ length s
unfolding skip_modifiers
length-skip_modifiers-le zero s = omega arith
length-skip_modifiers-le (suc f) s = ground (
  arith,
  length-skip_from-le text s,
  length-next_token-le (skip_sql_comments s),
  length-after_modifier-le (next_token (skip_sql_comments s)).0
      (next_token (skip_sql_comments s)).1,
  length-skip_modifiers-le f
      (after_modifier (next_token (skip_sql_comments s)).0 (next_token (skip_sql_comments s)).1),
)

length-strip_options-le : (s : Text) → length (strip_options s) ≤ length s
unfolding strip_options
length-strip_options-le s = elim (Option-cases (skip_options (skip_sql_comments (skip_spaces s)))) [
  | inl e ↦ rw (e, strip_options) (omega arith)
  | inr (rest, e) ↦
      rw (e, strip_options)
        (omega (
          arith,
          length-trim_space-le (
              skip_modifiers (suc (length (skip_sql_comments (skip_spaces rest))))
                (skip_sql_comments (skip_spaces rest))),
          length-skip_modifiers-le (suc (length (skip_sql_comments (skip_spaces rest))))
              (skip_sql_comments (skip_spaces rest)),
          length-skip_from-le text (skip_spaces rest),
          length-skip_spaces-le rest,
          length-skip_options-le (skip_sql_comments (skip_spaces s)) rest e,
          length-skip_from-le text (skip_spaces s),
          length-skip_spaces-le s,
        ))
]

-- A word that is cut off at a blank is a prefix, and a blank or the end follows it.
until_blank-prefix :
    (s p : Text)
    → to_upper (until_blank s) ≡ p
    → (has_prefix (to_upper s) p ≡ true) × (starts_blank (drop (length p) s) ≡ true)
until_blank-prefix [] [] h = (refl, refl)
until_blank-prefix [] (q ∷ p) h = cc
until_blank-prefix (c ∷ s) [] h = elim (Bool-cases (is_blank c)) [
  | inl e ↦ (refl, e)
  | inr e ↦ cc (rw e at h)
]
until_blank-prefix (c ∷ s) (q ∷ p) h = elim (Bool-cases (is_blank c)) [
  | inl e ↦ cc (rw e at h)
  | inr e ↦
      let k : upper_byte c ∷ to_upper (until_blank s) ≡ q ∷ p = rw e at h in
      ground (arith, k, until_blank-prefix s p (ap tail k))
]

-- The text does not begin with a parenthesis.
abbrev pub NoParen : Text → Type 0
NoParen [] = Unit
NoParen (c ∷ s) = (c == b'(') ≡ false

drop_paren-id : (s : Text) → NoParen s → drop_paren s ≡ s
drop_paren-id [] h = refl
drop_paren-id (c ∷ s) h = rw h

length-prefix : (s p : Text) → has_prefix s p ≡ true → length p ≤ length s
length-prefix s [] h = omega arith
length-prefix [] (q ∷ p) h = cc
length-prefix (c ∷ s) (q ∷ p) h = ground (arith, length-prefix s p)

length-to_upper : (s : Text) → length (to_upper s) ≡ length s
length-to_upper [] = refl
length-to_upper (c ∷ s) = ap suc (length-to_upper s)

length-drop : (n : ℕ) (s : Text) → n ≤ length s → length (drop n s) + n ≡ length s
length-drop zero s h = omega arith
length-drop (suc n) [] h = absurd (omega arith)
length-drop (suc n) (c ∷ s) h = omega (arith, length-drop n s)

-- An EXPLAIN statement that does not begin with a parenthesis loses its keyword at least, so the
-- recursive validation is on a shorter text.
pub length-strip_explain_prefix-lt :
    (n : Text)
    → to_upper (first_word n) ≡ codes "EXPLAIN"
    → NoParen (trim_space n)
    → length (strip_explain_prefix n) < length n
unfolding strip_explain_prefix
length-strip_explain_prefix-lt n e h =
    let (p, q) =
      until_blank-prefix (trim_space n) (codes "EXPLAIN")
        (ap (λ s. to_upper (until_blank s)) (sym (drop_paren-id (trim_space n) h)) ∙ e) in
    let bound = length-prefix (to_upper (trim_space n)) (codes "EXPLAIN") p in
    rw (p, q)
      (omega (
        arith,
        length-strip_options-le (drop 7 (trim_space n)),
        length-drop 7 (trim_space n) (omega (arith, bound, length-to_upper (trim_space n))),
        length-trim_space-le n,
      ))

-- An EXPLAIN behind a parenthesis is not stripped at all.
pub strip_explain_prefix-paren :
    (s : Text) → trim_space (b'(' ∷ s) ≡ b'(' ∷ s → strip_explain_prefix (b'(' ∷ s) ≡ b'(' ∷ s
unfolding strip_explain_prefix
strip_explain_prefix-paren s h = rw h
