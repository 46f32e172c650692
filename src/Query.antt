-- ===== src/Query.antt =====
-- src/internal/query/types.go: the table that a query returns.
pub mod Lock
use dbexplain.Prelude.{ℕ, Bool, Option, List}
use dbexplain.Prelude.Text.{Text}

pub record ColumnInfo : Type 0 where
  pub name : Text
  pub type : Text

-- A cell is nil for a database NULL.
abbrev pub Row : Type 0
Row = List (Option Text)

pub record QueryResult : Type 0 where
  pub columns : List ColumnInfo
  pub rows : List Row
  pub row_count : ℕ
  pub truncated : Bool
  pub execution_time : Text
  pub stripped_columns : List Text
