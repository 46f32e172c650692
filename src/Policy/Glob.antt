-- ===== src/Policy/Glob.antt =====
-- `globMatch` of src/internal/policy/policy.go: the patterns for Redis keys. Its error result is
-- nil on every path, so the model returns the Boolean alone.
use dbexplain.Prelude.{
  ℕ, ◌≡◌, Bool, true, false, List, [], ◌∷◌, Option, none, some, ◌==◌, ◌↔◌, is_empty, if◌then◌else◌,
}
use dbexplain.Prelude.Text.{Text}
use dbexplain.Wildcard.{
  Token, literal, any_byte, star, MatchesRead, cons_token, eat, try_suffixes, Decides,
  is_empty-Decides, false-Decides, eat-literal, eat-any, if-Decides, try_suffixes-Decides,
}

abbrev pub backslash : ℕ
backslash = 92

-- The recursive calls for what follows the first byte, and the second, are named once. The loop
-- that tries every position behind a star is `try_suffixes`.
unfoldable pub glob_match : Text → Text → Bool
glob_match [] name = is_empty name
glob_match (c ∷ []) name =
    if c == b'?'
    then eat (λ _. true) (glob_match []) name
    else if c == b'*'
    then try_suffixes (glob_match []) name
    else if c == backslash
    then false
    else eat (λ x. x == c) (glob_match []) name
glob_match (c ∷ d ∷ p) name =
    let rest : Text → Bool = glob_match (d ∷ p) in
    let after_escape : Text → Bool = glob_match p in
    if c == b'?'
    then eat (λ _. true) rest name
    else if c == b'*'
    then try_suffixes rest name
    else if c == backslash
    then eat (λ x. x == d) after_escape name
    else eat (λ x. x == c) rest name

-- How a pattern is read: `?` is any byte, `*` any run, a backslash makes the next byte literal, and
-- a backslash at the end makes the pattern unreadable.
abbrev pub glob_tokens : Text → Option (List Token)
glob_tokens [] = some []
glob_tokens (c ∷ []) =
    if c == b'?'
    then some (any_byte ∷ [])
    else if c == b'*'
    then some (star ∷ [])
    else if c == backslash
    then none
    else some (literal c ∷ [])
glob_tokens (c ∷ d ∷ p) =
    let rest = glob_tokens (d ∷ p) in
    let after_escape = glob_tokens p in
    if c == b'?'
    then cons_token any_byte rest
    else if c == b'*'
    then cons_token star rest
    else if c == backslash
    then cons_token (literal d) after_escape
    else cons_token (literal c) rest

glob_match-Decides : (p : Text) → Decides (glob_match p) (glob_tokens p)
unfolding glob_match
glob_match-Decides [] = is_empty-Decides
glob_match-Decides (c ∷ []) =
    if-Decides (c == b'?') _ _ _ _ (eat-any is_empty (some []) is_empty-Decides) (
      if-Decides (c == b'*') _ _ _ _ (try_suffixes-Decides is_empty (some []) is_empty-Decides) (
        if-Decides (c == backslash) _ _ _ _ false-Decides
          (eat-literal c is_empty (some []) is_empty-Decides)))
glob_match-Decides (c ∷ d ∷ p) =
    let rest = glob_match-Decides (d ∷ p) in
    let after_escape = glob_match-Decides p in
    if-Decides (c == b'?') _ _ _ _ (eat-any _ _ rest) (
      if-Decides (c == b'*') _ _ _ _ (try_suffixes-Decides _ _ rest) (
        if-Decides (c == backslash) _ _ _ _ (eat-literal d _ _ after_escape)
          (eat-literal c _ _ rest)))

-- `glob_match` answers true exactly on the names that the tokens of the pattern match, whatever
-- the order in which it tries the positions behind a star; a pattern that ends in a lone backslash
-- matches nothing.
pub glob_match_iff : (p name : Text) → (glob_match p name ≡ true) ↔ MatchesRead (glob_tokens p) name
glob_match_iff p name = glob_match-Decides p name
