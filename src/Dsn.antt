-- ===== src/Dsn.antt =====
-- The texts of src/internal/dsn/dsn.go: the fields of `DSN` that hold texts, `Redacted`, `labelFrom`, and
-- `escapeUserinfo`, which runs before the URL is parsed. A DSN is cut at its first "://" and its last
-- "@" where the code finds their indices.
pub mod Userinfo
pub mod Redact
use dbexplain.Prelude.{
  ℕ, zero, suc, ◌+◌, ◌-◌, ◌/◌, ◌%◌, ◌==◌, ltb, leb, ◌&&◌, ◌||◌, not, Bool, true, false, List, [],
  ◌∷◌, ◌++◌, Option, none, some, is_empty, if◌then◌else◌, drop,
}
use dbexplain.Prelude.Text.{Text, codes, has_prefix}

pub record Dsn : Type 0 where
  pub raw : Text
  pub kind : Text
  pub user : Text
  pub password : Text
  pub host : Text
  pub port : Text
  pub db_name : Text
  pub label : Text

abbrev cons_before : ℕ → Option (Text × Text) → Option (Text × Text)
cons_before c none = none
cons_before c (some (s, t)) = some (c ∷ s, t)

-- What stands before and behind the first "://".
unfoldable pub split_scheme : Text → Option (Text × Text)
split_scheme [] = none
split_scheme (c ∷ s) =
    let later = cons_before c (split_scheme s) in
    if has_prefix (c ∷ s) (codes "://") then some ([], drop 2 s) else later

-- What stands before and behind the last "@".
unfoldable pub split_last_at : Text → Option (Text × Text)
split_last_at [] = none
split_last_at (c ∷ s) = elim (split_last_at s) [
  | some (t, u) ↦ some (c ∷ t, u)
  | none ↦ if c == b'@' then some ([], s) else none
]

abbrev pub url : Text → Text → Text → Text
url scheme userinfo host = scheme ++ (codes "://" ++ (userinfo ++ (codes "@" ++ host)))

abbrev pub redacted_userinfo : Text → Text
redacted_userinfo user =
    if is_empty user then codes "{dbpassword}" else codes "{dbuser}:{dbpassword}"

abbrev pub redact_behind : Text → Text → Text → Option (Text × Text) → Text
redact_behind raw scheme user none = raw
redact_behind raw scheme user (some (userinfo, host)) = url scheme (redacted_userinfo user) host

abbrev pub redact_raw : Text → Text → Option (Text × Text) → Text
unfolding split_last_at
redact_raw raw user none = raw
redact_raw raw user (some (scheme, after)) = redact_behind raw scheme user (split_last_at after)

unfoldable pub redacted : Dsn → Text
unfolding split_scheme redact_raw
redacted d = if is_empty d.password then d.raw else redact_raw d.raw d.user (split_scheme d.raw)

unfoldable pub label_from : Dsn → Text
label_from d =
    let host = d.host ++ (if is_empty d.port then [] else codes ":" ++ d.port) in
    if is_empty d.db_name then host else host ++ codes "/" ++ d.db_name

abbrev between : ℕ → ℕ → ℕ → Bool
between low high c = leb low c && leb c high

unfoldable pub is_hex : ℕ → Bool
is_hex c = between b'0' b'9' c || (between b'a' b'f' c || between b'A' b'F' c)

abbrev pub is_mark : ℕ → List ℕ → Bool
is_mark c [] = false
is_mark c (m ∷ ms) = c == m || is_mark c ms

unfoldable pub is_userinfo_safe : ℕ → Bool
is_userinfo_safe c =
    between b'a' b'z' c
    || (between b'A' b'Z' c || (between b'0' b'9' c || is_mark c (codes "-._~!$&'()*+,;=:@")))

abbrev pub two_hex : Text → Bool
unfolding is_hex
two_hex (a ∷ b ∷ s) = is_hex a && is_hex b
two_hex _ = false

-- A percent sign with two hexadecimal digits behind it.
abbrev pub encoded : ℕ → Text → Bool
unfolding two_hex
encoded c s = c == b'%' && two_hex s

abbrev pub skip : ℕ → Text → ℕ
unfolding encoded
skip c s = if encoded c s then 2 else 0

-- The loop of `hasBareUnsafeChar`; the first argument counts the bytes that the loop still skips.
unfoldable pub has_bare_unsafe_from : ℕ → Text → Bool
unfolding encoded is_userinfo_safe skip
has_bare_unsafe_from k [] = false
has_bare_unsafe_from (suc k) (c ∷ s) = has_bare_unsafe_from k s
has_bare_unsafe_from zero (c ∷ s) =
    (not (encoded c s) && not (is_userinfo_safe c)) || has_bare_unsafe_from (skip c s) s

unfoldable pub has_bare_unsafe_char : Text → Bool
unfolding has_bare_unsafe_from
has_bare_unsafe_char s = has_bare_unsafe_from 0 s

unfoldable pub hex_upper : ℕ → ℕ
hex_upper n = if ltb n 10 then b'0' + n else b'A' + (n - 10)

-- %%%02X
abbrev pub percent : ℕ → Text
unfolding hex_upper
percent c = b'%' ∷ hex_upper (c / 16) ∷ hex_upper (c % 16) ∷ []

abbrev pub escaped : ℕ → Text → Text
unfolding encoded is_userinfo_safe percent
escaped c s = if encoded c s || is_userinfo_safe c then c ∷ [] else percent c

-- The loop of `escapeUserinfo`; the first argument counts the bytes that are copied as they are.
unfoldable pub escape_from : ℕ → Text → Text
unfolding escaped skip
escape_from k [] = []
escape_from (suc k) (c ∷ s) = c ∷ escape_from k s
escape_from zero (c ∷ s) = escaped c s ++ escape_from (skip c s) s

abbrev pub escape_parts : Text → Text → Option (Text × Text) → Text
unfolding has_bare_unsafe_char escape_from
escape_parts raw scheme none = raw
escape_parts raw scheme (some (userinfo, host)) =
    if is_empty userinfo
    then raw
    else if has_bare_unsafe_char userinfo
    then url scheme (escape_from 0 userinfo) host
    else raw

abbrev pub escape_behind : Text → Option (Text × Text) → Text
unfolding split_last_at escape_parts
escape_behind raw none = raw
escape_behind raw (some (scheme, after)) = escape_parts raw scheme (split_last_at after)

unfoldable pub escape_userinfo : Text → Text
unfolding split_scheme escape_behind
escape_userinfo raw = escape_behind raw (split_scheme raw)
