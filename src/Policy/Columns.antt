-- ===== src/Policy/Columns.antt =====
-- `matchColumn` of src/internal/policy/policy.go.
use dbexplain.Prelude.{Bool, true, ◌≡◌, refl, ◌||◌}
use dbexplain.Prelude.Text.{Text, codes, equal_fold, to_lower, lower_byte, after_last}
use dbexplain.Prelude.PathMatch.{path_match}

-- The pattern may have a table prefix, which ends at its last dot.
unfoldable pub match_column : Text → Text → Bool
unfolding after_last path_match lower_byte
match_column col_name pattern =
    let p = after_last b'.' pattern in
    equal_fold col_name p || path_match (to_lower p) (to_lower col_name)

match_column_prefix : match_column (codes "Password_Hash") (codes "users.password_*") ≡ true
unfolding match_column
match_column_prefix = refl
