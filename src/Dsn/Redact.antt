-- ===== src/Dsn/Redact.antt =====
-- What `escapeUserinfo` and `Redacted` of src/internal/dsn/dsn.go make of a DSN whose host part, up to
-- its end, holds no "@".
use dbexplain.Prelude.{
  ℕ, ◌<◌, ◌==◌, Bool, true, false, [], ◌∷◌, ◌++◌, All, any, is_empty, none, some, if◌then◌else◌,
  if-false, ◌||◌, ◌≡◌, refl, ap, sym, ◌∙◌,
}
use dbexplain.Prelude.Text.{Text, codes}
use dbexplain.Dsn.{
  Dsn, split_scheme, split_last_at, url, redacted_userinfo, redact_behind, redact_raw, redacted,
  has_bare_unsafe_char, has_bare_unsafe_from, escape_from, escape_parts, escape_behind,
  escape_userinfo,
}
use dbexplain.Dsn.Userinfo.{clean, unescaped}

abbrev pub has_byte : ℕ → Text → Bool
has_byte b = any (λ c. c == b)

or_false : (a b : Bool) → (a || b) ≡ false → (a ≡ false) × (b ≡ false)
or_false false b h = (refl, h)
or_false true b h = absurd cc

split_scheme-url :
    (scheme rest : Text)
    → has_byte b':' scheme ≡ false
    → split_scheme (scheme ++ (codes "://" ++ rest)) ≡ some (scheme, rest)
unfolding split_scheme
split_scheme-url [] rest h = refl
split_scheme-url (c ∷ s) rest h =
    let (here, later) = or_false (c == b':') (has_byte b':' s) h in
    rw (here, split_scheme-url s rest later) refl

split_last_at-none : (s : Text) → has_byte b'@' s ≡ false → split_last_at s ≡ none
unfolding split_last_at
split_last_at-none [] h = refl
split_last_at-none (c ∷ s) h =
    let (here, later) = or_false (c == b'@') (has_byte b'@' s) h in
    rw (split_last_at-none s later, split_last_at, here) refl

split_last_at-append :
    (userinfo host : Text)
    → has_byte b'@' host ≡ false
    → split_last_at (userinfo ++ (codes "@" ++ host)) ≡ some (userinfo, host)
unfolding split_last_at
split_last_at-append [] host h = rw (split_last_at-none host h, split_last_at) refl
split_last_at-append (c ∷ s) host h = rw (split_last_at-append s host h, split_last_at) refl

escape_split :
    (raw scheme after userinfo host : Text)
    → split_scheme raw ≡ some (scheme, after)
    → split_last_at after ≡ some (userinfo, host)
    → escape_userinfo raw ≡ escape_parts raw scheme (some (userinfo, host))
unfolding escape_userinfo escape_behind
escape_split raw scheme after userinfo host e f =
    ap (escape_behind raw) e ∙ ap (escape_parts raw scheme) f

redact_split :
    (d : Dsn) (scheme after userinfo host : Text)
    → is_empty d.password ≡ false
    → split_scheme d.raw ≡ some (scheme, after)
    → split_last_at after ≡ some (userinfo, host)
    → redacted d ≡ url scheme (redacted_userinfo d.user) host
unfolding redacted redact_raw
redact_split d scheme after userinfo host h e f =
    if-false (is_empty d.password) d.raw (redact_raw d.raw d.user (split_scheme d.raw)) h
    ∙ ap (redact_raw d.raw d.user) e
    ∙ ap (redact_behind d.raw scheme d.user) f

unless_clean :
    (b : Bool) (u v scheme host : Text)
    → (b ≡ false → v ≡ u)
    → (if b then url scheme v host else url scheme u host) ≡ url scheme v host
unless_clean true u v scheme host h = refl
unless_clean false u v scheme host h = ap (λ w. url scheme w host) (sym (h refl))

parts_escaped :
    (scheme userinfo host : Text)
    → escape_parts (url scheme userinfo host) scheme (some (userinfo, host))
      ≡ url scheme (escape_from 0 userinfo) host
unfolding escape_parts escape_from has_bare_unsafe_char
parts_escaped scheme [] host = refl
parts_escaped scheme (c ∷ s) host =
    unless_clean (has_bare_unsafe_from 0 (c ∷ s)) (c ∷ s) (escape_from 0 (c ∷ s)) scheme host
      (unescaped 0 (c ∷ s))

module _ (scheme host : Text) (one_scheme : has_byte b':' scheme ≡ false)
    (no_at : has_byte b'@' host ≡ false) where
  escape_userinfo-parts :
      (userinfo : Text)
      → escape_userinfo (url scheme userinfo host) ≡ url scheme (escape_from 0 userinfo) host
  escape_userinfo-parts userinfo =
      escape_split (url scheme userinfo host) scheme (userinfo ++ (codes "@" ++ host)) userinfo host
        (split_scheme-url scheme (userinfo ++ (codes "@" ++ host)) one_scheme)
        (split_last_at-append userinfo host no_at)
      ∙ parts_escaped scheme userinfo host

  -- Where the scheme has no colon and the part behind the userinfo no "@", escaping changes the
  -- userinfo alone, which may hold any byte; no byte that a userinfo may not hold is left bare, and
  -- escaping again changes nothing.
  pub escape_userinfo-url :
      (userinfo : Text)
      → All (λ c. c < 256) userinfo
      → (escape_userinfo (url scheme userinfo host) ≡ url scheme (escape_from 0 userinfo) host)
        × ((has_bare_unsafe_char (escape_from 0 userinfo) ≡ false)
            × (escape_userinfo (escape_userinfo (url scheme userinfo host))
                ≡ escape_userinfo (url scheme userinfo host)))
  unfolding has_bare_unsafe_char
  escape_userinfo-url userinfo bytes =
      let once = escape_userinfo-parts userinfo in
      let is_clean = clean 0 userinfo bytes in
      (
        once,
        (
          is_clean,
          ap escape_userinfo once
              ∙ escape_userinfo-parts (escape_from 0 userinfo)
              ∙ ap (λ u. url scheme u host) (unescaped 0 (escape_from 0 userinfo) is_clean)
              ∙ sym once,
        ),
      )

  -- Under the same conditions, and with a password that is not empty, the redacted form of what
  -- `ParseDSN` keeps of a DSN has placeholders in the place of the whole userinfo, whatever that is,
  -- and is the DSN otherwise.
  pub redacted-escape_userinfo :
      (d : Dsn) (userinfo : Text)
      → d.raw ≡ escape_userinfo (url scheme userinfo host)
      → is_empty d.password ≡ false
      → redacted d ≡ url scheme (redacted_userinfo d.user) host
  redacted-escape_userinfo d userinfo e h =
      redact_split d scheme (escape_from 0 userinfo ++ (codes "@" ++ host)) (escape_from 0 userinfo)
        host h
        (ap split_scheme (e ∙ escape_userinfo-parts userinfo)
          ∙ split_scheme-url scheme (escape_from 0 userinfo ++ (codes "@" ++ host)) one_scheme)
        (split_last_at-append (escape_from 0 userinfo) host no_at)
