-- ===== src/SqlGuard/Explain.antt =====
-- `stripExplainPrefix` of src/internal/sqlguard/sqlguard.go. The source walks an index over the
-- upper-case text and slices the original at its end; here the rest of the original text is passed
-- on, and a word is put in upper case where it is compared.
pub mod Bounds
use dbexplain.Prelude.{
  ℕ, zero, suc, ◌-◌, Bool, true, false, not, ◌==◌, ◌&&◌, ◌||◌, List, [], ◌∷◌, map, Option, none,
  some, is_empty, if◌then◌else◌, String, length, drop, ◌≡◌, refl,
}
use dbexplain.Prelude.Text.{
  Text, codes, trim_space, to_upper, upper_byte, has_prefix, one_of, text_eq,
}
use dbexplain.Policy.Sql.{is_blank, Mode, text, line, block}
use dbexplain.SqlGuard.Words.{skip_spaces}

-- `skipSQLComments`
pub skip_from : Mode → Text → Text
skip_from text [] = []
skip_from text (c ∷ []) = c ∷ []
skip_from text (c ∷ d ∷ s) =
    let in_block = skip_from block s in
    let in_line = skip_from line s in
    if c == b'/' && d == b'*'
    then in_block
    else if c == b'-' && d == b'-'
    then in_line
    else c ∷ d ∷ s
skip_from line [] = []
skip_from line (c ∷ s) =
    let behind = skip_from text s in
    let inside = skip_from line s in if c == 10 then behind else inside
skip_from block [] = []
skip_from block (c ∷ []) = []
skip_from block (c ∷ d ∷ s) =
    let behind = skip_from text s in
    let inside = skip_from block (d ∷ s) in if c == b'*' && d == b'/' then behind else inside

abbrev pub skip_sql_comments : Text → Text
skip_sql_comments s = skip_from text s

-- The bytes of a token, up to a blank or an equals sign, and what follows them.
abbrev pub token_run : Text → Text × Text
token_run [] = ([], [])
token_run (c ∷ s) =
    let (w, rest) = token_run s in if is_blank c || c == b'=' then ([], c ∷ s) else (c ∷ w, rest)

-- `nextToken`
abbrev pub next_token : Text → Text × Text
next_token s = token_run (skip_spaces s)

-- Where the scan of the option list stands: outside of quotes, behind an opening quote, or in a
-- block comment.
pub data Scan : Type 0 where
  plain comment : Scan
  quoted : ℕ → Scan

-- The scan of a parenthesized option list: what follows its end, or `none` if it has no end.
pub scan_parens : Scan → ℕ → Text → Option Text
scan_parens scan depth [] = none
scan_parens (quoted q) depth (c ∷ s) =
    let out = scan_parens plain depth s in
    let on = scan_parens (quoted q) depth s in if c == q then out else on
scan_parens comment depth (c ∷ []) = none
scan_parens comment depth (c ∷ d ∷ s) =
    let out = scan_parens plain depth s in
    let on = scan_parens comment depth (d ∷ s) in if c == b'*' && d == b'/' then out else on
scan_parens plain depth (c ∷ []) = if c == b')' && depth == 1 then some [] else none
scan_parens plain depth (c ∷ d ∷ s) =
    let in_comment = scan_parens comment depth s in
    let in_quote = scan_parens (quoted c) depth (d ∷ s) in
    let deeper = scan_parens plain (suc depth) (d ∷ s) in
    let shallower = scan_parens plain (depth - 1) (d ∷ s) in
    let same = scan_parens plain depth (d ∷ s) in
    if c == b'/' && d == b'*'
    then in_comment
    else if c == 39 || c == 34
    then in_quote
    else if c == b'('
    then deeper
    else if c == b')'
    then (if depth == 1 then some (d ∷ s) else shallower)
    else same

-- An option list, if one stands here.
pub skip_options : Text → Option Text
unfolding scan_parens
skip_options [] = some []
skip_options (c ∷ s) = if c == b'(' then scan_parens plain 0 (c ∷ s) else some (c ∷ s)

abbrev modifiers : List Text
modifiers = map codes ("ANALYZE" ∷ "VERBOSE" ∷ "FORMAT" ∷ "QUERY" ∷ "PLAN" ∷ "FOR" ∷ [])

abbrev pub drop_equals : Text → Text
drop_equals [] = []
drop_equals (c ∷ s) = if c == b'=' then skip_spaces s else c ∷ s

-- What a modifier takes with it: FORMAT has a value.
pub after_modifier : Text → Text → Text
unfolding upper_byte
after_modifier tok rest =
    if text_eq (to_upper tok) (codes "FORMAT")
    then skip_spaces (next_token (drop_equals (skip_spaces rest))).1
    else skip_spaces rest

-- The loop over the modifiers.
pub skip_modifiers : ℕ → Text → Text
unfolding skip_from after_modifier upper_byte
skip_modifiers zero s = s
skip_modifiers (suc f) s =
    let s' = skip_sql_comments s in
    let (tok, rest) = next_token s' in
    let onward = skip_modifiers f (after_modifier tok rest) in
    if is_empty tok || not (one_of (to_upper tok) modifiers) then s' else onward

-- What follows the EXPLAIN keyword.
pub strip_options : Text → Text
unfolding skip_from skip_options skip_modifiers
strip_options s = elim (skip_options (skip_sql_comments (skip_spaces s))) [
  | none ↦ []
  | some rest ↦
      let rest' = skip_sql_comments (skip_spaces rest) in
      trim_space (skip_modifiers (suc (length rest')) rest')
]

abbrev pub starts_blank : Text → Bool
starts_blank [] = true
starts_blank (c ∷ s) = is_blank c

unfoldable pub strip_explain_prefix : Text → Text
unfolding strip_options upper_byte
strip_explain_prefix sql =
    let s = trim_space sql in
    if has_prefix (to_upper s) (codes "EXPLAIN") && starts_blank (drop 7 s)
    then strip_options (drop 7 s)
    else s

explain_options :
    strip_explain_prefix (codes "explain (analyze, x ')') /* c */ verbose select 1")
    ≡ codes "select 1"
unfolding strip_explain_prefix
explain_options = refl

explain_format : strip_explain_prefix (codes "EXPLAIN FORMAT = JSON SELECT 1") ≡ codes "SELECT 1"
unfolding strip_explain_prefix
explain_format = refl
