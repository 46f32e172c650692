-- ===== src/Policy/Redact.antt =====
-- `StripDeniedColumns` of src/internal/policy/policy.go, on a configuration and a result that are
-- not nil. The warning on standard error is not modelled.
pub mod Projection
pub mod Laws
use dbexplain.Prelude.{
  ℕ, suc, Bool, ◌==◌, ◌||◌, List, [], Option, none, some, length, ltb, ◌∷◌, map, any, is_empty,
  if◌then◌else◌,
}
use dbexplain.Prelude.Text.{Text}
use dbexplain.Query.{ColumnInfo, QueryResult, Row}
use dbexplain.Policy.Config.{Config}
use dbexplain.Policy.Columns.{match_column}

-- Some pattern of the list matches the column.
abbrev pub denies : List Text → ColumnInfo → Bool
denies patterns col = any (match_column col.name) patterns

-- `toStrip`, from index `i` on: the columns that some denied pattern matches.
unfoldable pub to_strip : List Text → ℕ → List ColumnInfo → List (ℕ × Text)
to_strip patterns i [] = []
to_strip patterns i (col ∷ cols) =
    let rest = to_strip patterns (suc i) cols in
    if denies patterns col then (i, col.name) ∷ rest else rest

-- stripIdx[i]
unfoldable pub strip_idx : List (ℕ × Text) → ℕ → Bool
strip_idx [] i = Bool.false
strip_idx ((j, name) ∷ s) i = i == j || strip_idx s i

-- What a loop over a slice keeps: the elements whose index, counted from `i`, is not stripped.
unfoldable pub unstripped {ℓ} : {A : Type ℓ} → List (ℕ × Text) → ℕ → List A → List A
unstripped s i [] = []
unstripped s i (a ∷ l) =
    let rest = unstripped s (suc i) l in if strip_idx s i then rest else a ∷ rest

-- make([]*string, 0, len(row)-len(stripIdx)): the capacity is negative.
unfoldable pub too_short : List (ℕ × Text) → Row → Bool
too_short s row = ltb (length row) (length s)

-- `none` is the panic of `make` on a row with fewer cells than there are columns to strip.
unfoldable pub strip_denied_columns : Config → QueryResult → Option QueryResult
unfolding to_strip too_short strip_idx unstripped
strip_denied_columns c r =
    if is_empty c.deny_columns || is_empty r.columns
    then some r
    else let s = to_strip c.deny_columns 0 r.columns in
      if is_empty s
      then some r
      else if any (too_short s) r.rows
      then none
      else some (record r {
        columns = unstripped s 0 r.columns;
        rows = map (unstripped s 0) r.rows;
        stripped_columns = map (λ x. x.1) s;
      })
