-- ===== src/Policy/Mask.antt =====
-- `ApplyMask` of src/internal/policy/policy.go, on a configuration and a result that are not nil.
-- Go ranges over the map of masks in an order of its own for each column: `orders i` is the order
-- for column `i`. `none` is the panic of an index out of range.
pub mod Laws
pub mod Cells
use dbexplain.Prelude.{
  ℕ, zero, suc, ◌||◌, List, [], ◌∷◌, Option, none, some, is_empty, if◌then◌else◌,
}
use dbexplain.Prelude.Text.{Text}
use dbexplain.Query.{ColumnInfo, Row, QueryResult}
use dbexplain.Policy.Config.{Config}
use dbexplain.Policy.Columns.{match_column}

-- The replacement of the first pattern that matches, where the loop over the map breaks.
pub first_match : Text → List (Text × Text) → Option Text
first_match name [] = none
first_match name ((pattern, replacement) ∷ masks) =
    if match_column name pattern then some replacement else first_match name masks

-- if row[i] != nil { row[i] = &replacement }
pub mask_cell : ℕ → Text → Row → Option Row
mask_cell i replacement [] = none
mask_cell zero replacement (none ∷ row) = some (none ∷ row)
mask_cell zero replacement (some v ∷ row) = some (some replacement ∷ row)
mask_cell (suc i) replacement (v ∷ row) = elim (mask_cell i replacement row) [
  | none ↦ none
  | some row' ↦ some (v ∷ row')
]

pub mask_rows : ℕ → Text → List Row → Option (List Row)
mask_rows i replacement [] = some []
mask_rows i replacement (row ∷ rows) = elim (mask_cell i replacement row) [
  | none ↦ none
  | some row' ↦ elim (mask_rows i replacement rows) [
    | none ↦ none
    | some rows' ↦ some (row' ∷ rows')
  ]
]

-- The body of the loop over the columns.
pub mask_column : ℕ → Option Text → List Row → Option (List Row)
mask_column i none rows = some rows
mask_column i (some replacement) rows = mask_rows i replacement rows

pub mask_columns : (ℕ → List (Text × Text)) → ℕ → List ColumnInfo → List Row → Option (List Row)
mask_columns orders i [] rows = some rows
mask_columns orders i (col ∷ cols) rows =
    elim (mask_column i (first_match col.name (orders i)) rows) [
      | none ↦ none
      | some rows' ↦ mask_columns orders (suc i) cols rows'
    ]

unfoldable pub apply_mask : (ℕ → List (Text × Text)) → Config → QueryResult → Option QueryResult
unfolding mask_columns mask_column mask_rows mask_cell first_match
apply_mask orders c r =
    if is_empty c.mask_columns || is_empty r.columns
    then some r
    else elim (mask_columns orders 0 r.columns r.rows) [
      | none ↦ none
      | some rows' ↦ some (record r { rows = rows' })
    ]
