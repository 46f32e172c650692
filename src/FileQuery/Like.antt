-- ===== src/FileQuery/Like.antt =====
-- `likeMatch` of src/internal/connector/filequery/evaluator.go.
use dbexplain.Prelude.{
  ℕ, ◌≡◌, Bool, true, false, List, [], ◌∷◌, Option, none, some, ◌==◌, ◌↔◌, is_empty, if◌then◌else◌,
}
use dbexplain.Prelude.Text.{Text, to_lower}
use dbexplain.Wildcard.{
  Token, literal, any_byte, star, MatchesRead, cons_token, eat, try_suffixes, Decides,
  is_empty-Decides, false-Decides, true-Decides, eat-literal, eat-any, if-Decides,
  try_suffixes-Decides,
}

abbrev backslash : ℕ
backslash = 92

-- `likeMatchRecurse`, with the pattern first. The source's loop on both indices is the recursion on
-- the pattern, and its inner loop behind a `%` is `try_suffixes`.
pub like_match_recurse : Text → Text → Bool
like_match_recurse [] s = is_empty s
like_match_recurse (c ∷ []) s =
    if c == b'%'
    then true
    else if c == b'_'
    then eat (λ _. true) (like_match_recurse []) s
    else if c == backslash
    then false
    else eat (λ x. x == c) (like_match_recurse []) s
like_match_recurse (c ∷ d ∷ p) s =
    let rest : Text → Bool = like_match_recurse (d ∷ p) in
    let after_escape : Text → Bool = like_match_recurse p in
    if c == b'%'
    then try_suffixes rest s
    else if c == b'_'
    then eat (λ _. true) rest s
    else if c == backslash
    then eat (λ x. x == d) after_escape s
    else eat (λ x. x == c) rest s

pub like_match : Text → Text → Bool
like_match s pattern = like_match_recurse (to_lower pattern) (to_lower s)

-- How a pattern is read: `%` is any run of bytes, `_` is one byte, a backslash makes the next byte
-- literal, and a backslash at the end makes the pattern unreadable.
abbrev pub like_tokens : Text → Option (List Token)
like_tokens [] = some []
like_tokens (c ∷ []) =
    if c == b'%'
    then some (star ∷ [])
    else if c == b'_'
    then some (any_byte ∷ [])
    else if c == backslash
    then none
    else some (literal c ∷ [])
like_tokens (c ∷ d ∷ p) =
    let rest = like_tokens (d ∷ p) in
    let after_escape = like_tokens p in
    if c == b'%'
    then cons_token star rest
    else if c == b'_'
    then cons_token any_byte rest
    else if c == backslash
    then cons_token (literal d) after_escape
    else cons_token (literal c) rest

like_match_recurse-Decides : (p : Text) → Decides (like_match_recurse p) (like_tokens p)
unfolding like_match_recurse
like_match_recurse-Decides [] = is_empty-Decides
like_match_recurse-Decides (c ∷ []) = if-Decides (c == b'%') _ _ _ _ true-Decides (
    if-Decides (c == b'_') _ _ _ _ (eat-any is_empty (some []) is_empty-Decides) (
      if-Decides (c == backslash) _ _ _ _ false-Decides
        (eat-literal c is_empty (some []) is_empty-Decides)))
like_match_recurse-Decides (c ∷ d ∷ p) =
    let rest = like_match_recurse-Decides (d ∷ p) in
    let after_escape = like_match_recurse-Decides p in
    if-Decides (c == b'%') _ _ _ _ (try_suffixes-Decides _ _ rest) (
      if-Decides (c == b'_') _ _ _ _ (eat-any _ _ rest) (
        if-Decides (c == backslash) _ _ _ _ (eat-literal d _ _ after_escape)
          (eat-literal c _ _ rest)))

-- `like_match` answers true exactly on the texts that, with their letters in lower case, the tokens
-- of the pattern in lower case match; a pattern that ends in a lone backslash matches nothing.
pub like_match_iff :
    (s pattern : Text)
    → (like_match s pattern ≡ true) ↔ MatchesRead (like_tokens (to_lower pattern)) (to_lower s)
unfolding like_match
like_match_iff s pattern = like_match_recurse-Decides (to_lower pattern) (to_lower s)
