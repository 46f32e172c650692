-- ===== src/Policy/Native/Redis.antt =====
-- The Redis branch of `CheckNative` of src/internal/policy/policy.go.
use dbexplain.Prelude.{
  Bool, false, ◌||◌, List, [], ◌∷◌, Option, none, some, is_empty, is_empty→nil, All, Option-cases,
  Bool-cases, if◌then◌else◌, if-false, if-true, ◌≡◌, ◌↔◌, inl, inr, refl, sym, ◌∙◌, arith,
}
use dbexplain.Prelude.Text.{Text, codes, equal_fold}
use dbexplain.Wildcard.{MatchesRead}
use dbexplain.Policy.Config.{Config}
use dbexplain.Policy.Sql.{normalize_whitespace}
use dbexplain.Policy.Glob.{glob_match, glob_tokens, glob_match_iff}
use dbexplain.Policy.Check.{statement, table, denied_pattern}
use dbexplain.Policy.Check.Laws.{NoPattern, denied_pattern-NoPattern, deny-none}
use dbexplain.Policy.Native.{check_native, check_kind, denied_keys, denied_key, extract_redis_keys}

-- No pattern of the list matches the key or equals it up to case.
abbrev pub IsUntouched : List Text → Text → Type 0
IsUntouched ds k = All (λ d. (¬ MatchesRead (glob_tokens d) k) × (equal_fold k d ≡ false)) ds

not_glob_iff : (d k : Text) → (glob_match d k ≡ false) ↔ (¬ MatchesRead (glob_tokens d) k)
not_glob_iff d k = (
  λ h m. cc (h, (glob_match_iff d k).1 m),
  λ n. elim (Bool-cases (glob_match d k)) [
    | inl e ↦ absurd (n ((glob_match_iff d k).0 e))
    | inr e ↦ e
  ],
)

if-none :
    (a b : Bool) (d : Text) (o : Option Text)
    → ((if a || b then some d else o) ≡ none) ↔ ((a ≡ false) × (b ≡ false) × (o ≡ none))
if-none a b d o = ground arith

denied_key-none : (k : Text) (ds : List Text) → (denied_key k ds ≡ none) ↔ IsUntouched ds k
denied_key-none k [] = (λ _. tt, λ _. refl)
denied_key-none k (d ∷ ds) =
    let branch = if-none (glob_match d k) (equal_fold k d) d (denied_key k ds) in
    (
      λ h. let (a, b, o) = branch.0 h in (((not_glob_iff d k).0 a, b), (denied_key-none k ds).0 o),
      λ ((n, b), u). branch.1 ((not_glob_iff d k).1 n, b, (denied_key-none k ds).1 u),
    )

denied_keys_sound : (ks ds : List Text) → denied_keys ks ds ≡ none → All (IsUntouched ds) ks
unfolding denied_keys
denied_keys_sound [] ds h = tt
denied_keys_sound (k ∷ ks) ds h = elim (Option-cases (denied_key k ds)) [
  | inl e ↦ ((denied_key-none k ds).0 e, denied_keys_sound ks ds (rw (e, denied_keys) at h))
  | inr (d, e) ↦ cc (e, h)
]

denied_keys_complete : (ks ds : List Text) → All (IsUntouched ds) ks → denied_keys ks ds ≡ none
unfolding denied_keys
denied_keys_complete [] ds h = refl
denied_keys_complete (k ∷ ks) ds h =
    rw ((denied_key-none k ds).1 h.0, denied_keys) (denied_keys_complete ks ds h.1)

All-nothing_denied : (ks : List Text) → All (IsUntouched []) ks
All-nothing_denied [] = tt
All-nothing_denied (k ∷ ks) = (tt, All-nothing_denied ks)

check_kind-redis :
    (c : Config) (query : Text)
    → (check_kind c query (codes "redis") ≡ none)
      ↔ All (IsUntouched c.deny_tables) (extract_redis_keys query)
unfolding check_kind
check_kind-redis c query =
    let denial =
      deny-none table query (denied_keys (extract_redis_keys query) c.deny_tables) none in
    (
      λ h. denied_keys_sound (extract_redis_keys query) c.deny_tables (denial.0 h).0,
      λ u. denial.1 (denied_keys_complete (extract_redis_keys query) c.deny_tables u, refl),
    )

tables-redis :
    (c : Config) (query : Text)
    → ((if is_empty c.deny_tables then none else check_kind c query (codes "redis")) ≡ none)
      ↔ All (IsUntouched c.deny_tables) (extract_redis_keys query)
tables-redis c query = elim (Bool-cases (is_empty c.deny_tables)) [
  | inl e ↦ (
    λ _. rw (is_empty→nil c.deny_tables e) (All-nothing_denied (extract_redis_keys query)),
    λ _. if-true (is_empty c.deny_tables) _ _ e,
  )
  | inr e ↦ (
    λ h. (check_kind-redis c query).0 (sym (if-false (is_empty c.deny_tables) _ _ e) ∙ h),
    λ u. if-false (is_empty c.deny_tables) _ _ e ∙ (check_kind-redis c query).1 u,
  )
]

-- The Redis command that `check_native` lets through is exactly the one whose words, one blank apart,
-- contain no denied pattern up to case, the blanks of a pattern counted as they stand, and whose key,
-- where one is found in it, no denied name equals up to case or matches as a glob pattern.
pub check_native-redis_iff :
    (c : Config) (query : Text)
    → (check_native c query (codes "redis") ≡ none) ↔ (
        NoPattern query c.deny_statements
        × All (IsUntouched c.deny_tables) (extract_redis_keys query))
unfolding check_native
check_native-redis_iff c query =
    let denial =
      deny-none statement query (denied_pattern (normalize_whitespace query) c.deny_statements)
        (if is_empty c.deny_tables then none else check_kind c query (codes "redis")) in
    let pattern = denied_pattern-NoPattern query c.deny_statements in
    (
      λ h. (pattern.0 (denial.0 h).0, (tables-redis c query).0 (denial.0 h).1),
      λ (p, u). denial.1 (pattern.1 p, (tables-redis c query).1 u),
    )
