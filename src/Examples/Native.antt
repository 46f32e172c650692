-- ===== src/Examples/Native.antt =====
-- The native checks of src/internal/policy/policy.go on Redis commands.
use dbexplain.Prelude.{◌≡◌, ◌↔◌, refl, [], ◌∷◌, none, some, All}
use dbexplain.Prelude.Text.{codes}
use dbexplain.Policy.Config.{Config}
use dbexplain.Policy.Check.{table}
use dbexplain.Policy.Check.Laws.{NoPattern}
use dbexplain.Policy.Glob.{glob_match}
use dbexplain.Wildcard.{try_suffixes}
use dbexplain.Policy.Native.{check_native, extract_redis_keys}
use dbexplain.Policy.Native.Redis.{IsUntouched, check_native-redis_iff}

abbrev redis_rules : Config
redis_rules = record {
  deny_tables = codes "session:*" ∷ [];
  deny_columns = [];
  deny_statements = codes "flushall" ∷ [];
  mask_columns = [];
}

session_denied :
    check_native redis_rules (codes "GET session:42") (codes "redis")
    ≡ some (record { level = table; target = codes "session:*"; sql = codes "GET session:42" })
unfolding check_native glob_match try_suffixes
session_denied = refl

-- HSCAN counts as a command without a key.
hscan_passes : check_native redis_rules (codes "HSCAN session:42 0") (codes "redis") ≡ none
unfolding check_native
hscan_passes = refl

-- Only the first argument is a key: a second one is not looked at.
second_key_passes : check_native redis_rules (codes "MGET a session:42") (codes "redis") ≡ none
unfolding check_native glob_match try_suffixes
second_key_passes = refl

check_native-redis_iff_example :
    (check_native redis_rules (codes "GET session:42") (codes "redis") ≡ none) ↔ (
      NoPattern (codes "GET session:42") (codes "flushall" ∷ [])
      × All (IsUntouched (codes "session:*" ∷ [])) (extract_redis_keys (codes "GET session:42")))
check_native-redis_iff_example = check_native-redis_iff redis_rules (codes "GET session:42")
