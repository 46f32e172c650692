-- ===== src/SqlGuard/Into.antt =====
-- `isSelectInto` of src/internal/sqlguard/sqlguard.go.
use dbexplain.Prelude.{Bool, true, false, not, ◌&&◌, ◌||◌, [], ◌∷◌, if◌then◌else◌, drop, ◌≡◌, refl}
use dbexplain.Prelude.Text.{Text, codes, trim_space, to_upper, upper_byte, has_prefix}
use dbexplain.Policy.Sql.{is_blank}
use dbexplain.SqlGuard.Explain.{starts_blank}

-- The loop over the positions; `boundary` is `isWordBoundaryBefore`.
pub into_from : Bool → Text → Bool
into_from boundary [] = false
into_from boundary (c ∷ s) =
    let rest = into_from (is_blank c) s in
    let after = trim_space (drop 3 s) in
    if has_prefix (c ∷ s) (codes "INTO") && boundary && starts_blank (drop 3 s)
    then not (has_prefix after (codes "@") || has_prefix after (codes ":"))
    else rest

unfoldable pub is_select_into : Text → Bool
unfolding into_from upper_byte
is_select_into normalized = into_from true (to_upper normalized)

into_table : is_select_into (codes "select * into t from u") ≡ true
unfolding is_select_into
into_table = refl
