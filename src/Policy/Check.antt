-- ===== src/Policy/Check.antt =====
-- `CheckSQL`, `extractTableNames` and `extractColumnRefs` of src/internal/policy/policy.go, on a
-- configuration that is not nil. `parse` is sqlast.Parse, `none` where it returns an error.
pub mod Laws
pub mod Tables
use dbexplain.Prelude.{ℕ, Bool, List, [], ◌∷◌, Option, none, some, if◌then◌else◌}
use dbexplain.Prelude.Text.{Text, contains, to_upper, equal_fold, upper_byte, lower_byte}
use dbexplain.SqlAst.{Stmt}
use dbexplain.Policy.Config.{Config}
use dbexplain.Policy.Sql.{normalize_whitespace, strip_sql_comments}
use dbexplain.Policy.Extract.{extract_tables_from_ast, extract_col_refs_from_ast}
use dbexplain.Policy.Scan.{scan_tables, scan_refs}

pub data Level : Type 0 where
  statement table column : Level

-- `ErrDenied`
pub record Denied : Type 0 where
  pub level : Level
  pub target : Text
  pub sql : Text

-- The first pattern of the list that the query contains.
unfoldable pub denied_pattern : Text → List Text → Option Text
denied_pattern normalized [] = none
denied_pattern normalized (p ∷ ps) =
    if contains (to_upper normalized) (to_upper p) then some p else denied_pattern normalized ps

-- The inner loop: the first denied name that a name equals up to case.
unfoldable pub denied_name : Text → List Text → Option Text
denied_name t [] = none
denied_name t (d ∷ ds) = if equal_fold t d then some d else denied_name t ds

-- The outer loop, over the names of the query.
unfoldable pub denied_names : List Text → List Text → Option Text
unfolding denied_name
denied_names [] ds = none
denied_names (t ∷ ts) ds = elim (denied_name t ds) [ some d ↦ some d | none ↦ denied_names ts ds ]

abbrev pub deny : Level → Text → Option Text → Option Denied → Option Denied
deny level sql none next = next
deny level sql (some d) next = some (record { level = level; target = d; sql = sql })

module _ (parse : Text → Option Stmt) where
  unfoldable pub extract_table_names : Text → List Text
  unfolding strip_sql_comments extract_tables_from_ast scan_tables
  extract_table_names sql =
      let clean = strip_sql_comments sql in
      elim (parse clean) [ some stmt ↦ extract_tables_from_ast stmt | none ↦ scan_tables clean ]

  unfoldable pub extract_column_refs : Text → List Text
  unfolding extract_col_refs_from_ast scan_refs
  extract_column_refs sql = elim (parse sql) [
    | some stmt ↦ extract_col_refs_from_ast stmt
    | none ↦ scan_refs sql
  ]

  -- `none` is the nil error: the query passes. A list of denied names that is empty denies nothing,
  -- so the guards on the lengths of the lists, which only save work, need no branch.
  unfoldable pub check_sql : Config → Text → Option Denied
  unfolding normalize_whitespace denied_pattern denied_names denied_name upper_byte lower_byte
  check_sql c sql =
      deny statement sql (denied_pattern (normalize_whitespace sql) c.deny_statements) (
        deny table sql (denied_names (extract_table_names sql) c.deny_tables)
          (deny column sql (denied_names (extract_column_refs sql) c.deny_columns) none))
