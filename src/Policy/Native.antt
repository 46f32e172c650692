-- ===== src/Policy/Native.antt =====
-- `CheckNative` of src/internal/policy/policy.go and the extractors that it uses.
pub mod Redis
use dbexplain.Prelude.{
  ℕ, zero, suc, ◌-◌, Bool, true, false, not, ◌&&◌, ◌||◌, List, [], ◌∷◌, ◌++◌, map, Option, none,
  some, is_empty, if◌then◌else◌, length, ◌≡◌,
}
use dbexplain.Prelude.Text.{
  fields, Text, codes, to_upper, one_of, equal_fold, cut, text_eq, upper_byte, lower_byte,
}
use dbexplain.Policy.Config.{Config}
use dbexplain.Policy.Sql.{normalize_whitespace}
use dbexplain.Policy.Extract.{add_new}
use dbexplain.Policy.Scan.{after, first_after, bind, skip_white}
use dbexplain.Policy.Glob.{glob_match}
use dbexplain.Policy.PromQl.{extract_promql_metric_name, extract_promql_labels}
use dbexplain.Policy.Check.{Denied, statement, table, column, deny, denied_pattern, denied_names}

abbrev quote : ℕ
quote = 34

-- "([^"]+)" behind the opening quote: the text up to the closing one, which is not empty.
quoted_name : Text → Option (Text × Text)
unfolding cut
quoted_name s = bind (cut s quote) λ (name, rest). if is_empty name then none else some (name, rest)

abbrev collection_keys : List Text
collection_keys = map codes ("\"find\"" ∷ "\"aggregate\"" ∷ "\"scroll\"" ∷ "\"count\"" ∷ [])

-- "(?:find|aggregate|scroll|count)"\s*:\s*"([^"]+)" at the head
collection_at : Text → Option (Text × Text)
unfolding quoted_name
collection_at s = bind (first_after collection_keys s s) λ s1.
    bind (after (codes ":") (skip_white s1))
      λ s2. bind (after (quote ∷ []) (skip_white s2)) λ s3. quoted_name s3

collection_matches : ℕ → Text → List Text
unfolding collection_at
collection_matches skip [] = []
collection_matches (suc skip) (c ∷ s) = collection_matches skip s
collection_matches zero (c ∷ s) = elim (collection_at (c ∷ s)) [
  | none ↦ collection_matches zero s
  | some (name, rest) ↦ name ∷ collection_matches (length s - length rest) s
]

abbrev add_all : List Text → List Text → List Text
add_all [] seen = seen
add_all (t ∷ ts) seen = add_all ts (add_new t seen)

-- `extractJSONCollectionNames`
unfoldable pub extract_json_collection_names : Text → List Text
unfolding collection_matches add_new
extract_json_collection_names query = add_all (collection_matches zero query) []

-- A pattern matches somewhere in the text.
abbrev somewhere : (Text → Bool) → Text → Bool
somewhere at [] = at []
somewhere at (c ∷ s) = at (c ∷ s) || somewhere at s

abbrev is_some {ℓ} : {A : Type ℓ} → Option A → Bool
is_some none = false
is_some (some a) = true

-- `hasProjection`: "projection"\s*:
unfoldable pub has_projection : Text → Bool
has_projection =
    somewhere
      λ s. is_some (bind (after (codes "\"projection\"") s) λ s1. after (codes ":") (skip_white s1))

-- `fieldIsProjectedOut`: "field"\s*:\s*(0|false)
unfoldable pub field_is_projected_out : Text → Text → Bool
field_is_projected_out query field =
    somewhere
      (λ s. is_some (
        bind (after (quote ∷ field ++ quote ∷ []) s) λ s1.
          bind (after (codes ":") (skip_white s1))
            λ s2. first_after (map codes ("0" ∷ "false" ∷ [])) (skip_white s2) (skip_white s2)))
      query

abbrev keyless : List Text
keyless = map codes ("PING" ∷ "ECHO" ∷ "SCAN" ∷ "HSCAN" ∷ "SSCAN" ∷ "ZSCAN" ∷ [])

abbrev redis_keys_of : List Text → List Text
redis_keys_of (cmd ∷ key ∷ args) =
    if one_of (to_upper cmd) keyless then [] else if is_empty key then [] else key ∷ []
redis_keys_of _ = []

-- `extractRedisKeys`
unfoldable pub extract_redis_keys : Text → List Text
unfolding upper_byte
extract_redis_keys query = redis_keys_of (fields query)

-- Some name of the list equals the field's collection, and the query does not exclude the field.
abbrev denied_field : Text → Text → List Text → Option Text
denied_field query collection [] = none
denied_field query collection (d ∷ ds) = elim (cut d b'.') [
  | none ↦ denied_field query collection ds
  | some (denied_collection, field) ↦
      if not (equal_fold collection denied_collection)
        || (has_projection query && field_is_projected_out query field)
      then denied_field query collection ds
      else some d
]

unfoldable pub denied_fields : Text → List Text → List Text → Option Text
unfolding cut has_projection field_is_projected_out lower_byte
denied_fields query [] ds = none
denied_fields query (c ∷ cs) ds = elim (denied_field query c ds) [
  | some d ↦ some d
  | none ↦ denied_fields query cs ds
]

-- The keys of a Redis command are matched by glob patterns too.
abbrev denied_key : Text → List Text → Option Text
denied_key k [] = none
denied_key k (d ∷ ds) = if glob_match d k || equal_fold k d then some d else denied_key k ds

unfoldable pub denied_keys : List Text → List Text → Option Text
unfolding lower_byte
denied_keys [] ds = none
denied_keys (k ∷ ks) ds = elim (denied_key k ds) [ some d ↦ some d | none ↦ denied_keys ks ds ]

abbrev nonempty_name : Text → List Text
nonempty_name t = if is_empty t then [] else t ∷ []

-- The switch on the kind of the data source.
unfoldable pub check_kind : Config → Text → Text → Option Denied
unfolding extract_json_collection_names extract_redis_keys extract_promql_metric_name
    extract_promql_labels denied_fields denied_keys denied_names
check_kind c query kind =
    let collections = extract_json_collection_names query in
    let metric = nonempty_name (extract_promql_metric_name query) in
    if one_of kind (map codes ("mongodb" ∷ "qdrant" ∷ []))
    then deny table query (denied_names collections c.deny_tables)
        (deny column query (denied_fields query collections c.deny_columns) none)
    else if text_eq kind (codes "redis")
    then deny table query (denied_keys (extract_redis_keys query) c.deny_tables) none
    else if text_eq kind (codes "prometheus")
    then deny table query (denied_names metric c.deny_tables)
        (deny column query (denied_names (extract_promql_labels query) c.deny_columns) none)
    else none

-- The native check, on a configuration that is not nil.
unfoldable pub check_native : Config → Text → Text → Option Denied
unfolding normalize_whitespace denied_pattern check_kind upper_byte
check_native c query kind =
    deny statement query (denied_pattern (normalize_whitespace query) c.deny_statements)
      (if is_empty c.deny_tables then none else check_kind c query kind)

-- Without denied tables or keys the native check is the check of the statement patterns alone: for
-- every kind of data source the denied columns are not looked at.
pub check_native-no_tables :
    (c : Config) (query kind : Text)
    → is_empty c.deny_tables ≡ true
    → check_native c query kind
      ≡ deny statement query (denied_pattern (normalize_whitespace query) c.deny_statements) none
unfolding check_native
check_native-no_tables c query kind h = rw h
