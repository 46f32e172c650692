-- ===== src/Examples/Policy.antt =====
-- Redaction, masking and checks of src/internal/policy/policy.go on a small table and a few queries.
use mathlib.Core.List.Perm
use dbexplain.Prelude.{
  any, ℕ, ◌≡◌, refl, ◌↔◌, Bool, true, false, List, [], ◌∷◌, map, Option, none, some, All, length,
  if◌then◌else◌, arith,
}
use dbexplain.Prelude.Text.{Text, codes, text_eq, equal_fold, upper_byte, contains, to_upper}
use dbexplain.Query.{Row, QueryResult}
use dbexplain.SqlAst.{Stmt, SelectStmt, select, no_columns, no_joins, join, absent, select_stmt}
use dbexplain.Wildcard.{MatchesRead}
use dbexplain.Prelude.Map.{lookup}
use dbexplain.Policy.Config.{Config, load, load_mask}
use dbexplain.Policy.Config.Laws.{own_mask_wins}
use dbexplain.Policy.Columns.{match_column}
use dbexplain.Policy.Glob.{glob_match, glob_tokens, glob_match_iff}
use dbexplain.Policy.Redact.{
  to_strip, strip_idx, unstripped, denies, too_short, strip_denied_columns,
}
use dbexplain.Policy.Redact.Laws.{
  redacted?, strip_denied_columns-eq-redacted, strip_denied_columns_safe,
}
use dbexplain.Policy.Mask.{apply_mask}
use dbexplain.Policy.Mask.Cells.{RowsMasked, apply_mask_cells}
use dbexplain.Policy.Sql.{normalize_whitespace}
use dbexplain.Policy.Extract.{select_tables}
use dbexplain.Policy.Check.{check_sql, extract_table_names, extract_column_refs}
use dbexplain.Policy.Check.Laws.{NoPattern, NoneDenied, check_sql-passes_iff}
use dbexplain.Policy.Check.Tables.{mentions, select_tables_iff, check_sql-select_iff}

abbrev rules : Config
rules = record {
  deny_tables = codes "secret" ∷ [];
  deny_columns = codes "users.password_*" ∷ [];
  deny_statements = codes "drop table" ∷ [];
  mask_columns = (codes "email", codes "***") ∷ [];
}

abbrev users : QueryResult
users = record {
  columns =
      record { name = codes "id"; type = codes "int" }
      ∷ record { name = codes "Password_Hash"; type = codes "text" }
      ∷ record { name = codes "email"; type = codes "text" }
      ∷ [];
  rows =
      (some (codes "1") ∷ some (codes "x") ∷ some (codes "a@b") ∷ [])
      ∷ (some (codes "2") ∷ none ∷ none ∷ [])
      ∷ [];
  row_count = 2;
  truncated = false;
  execution_time = codes "1ms";
  stripped_columns = [];
}

stripped_users :
    strip_denied_columns rules users
    ≡ some (record users {
      columns =
          (record { name = codes "id"; type = codes "int" })
          ∷ (record { name = codes "email"; type = codes "text" })
          ∷ [];
      rows = (some (codes "1") ∷ some (codes "a@b") ∷ []) ∷ (some (codes "2") ∷ none ∷ []) ∷ [];
      stripped_columns = codes "Password_Hash" ∷ [];
    })
unfolding strip_denied_columns to_strip strip_idx unstripped match_column
stripped_users = refl

-- A row without cells, while a column is to be stripped.
strip_panics : strip_denied_columns rules (record users { rows = [] ∷ [] }) ≡ none
unfolding strip_denied_columns to_strip strip_idx unstripped match_column too_short
strip_panics = refl

strip_denied_columns-eq-redacted_example :
    strip_denied_columns rules users ≡ redacted? rules.deny_columns users
strip_denied_columns-eq-redacted_example = strip_denied_columns-eq-redacted rules users

strip_denied_columns_safe_example :
    (r' : QueryResult) × (strip_denied_columns rules users ≡ some r')
    × All (λ col. denies rules.deny_columns col ≡ false) r'.columns
    × All (λ row. length row ≡ length r'.columns) r'.rows
strip_denied_columns_safe_example = strip_denied_columns_safe rules users (omega arith)

abbrev same_order : ℕ → List (Text × Text)
same_order i = rules.mask_columns

apply_mask_cells_example :
    (rows' : List Row) × (apply_mask same_order rules users ≡ some (record users { rows = rows' }))
    × RowsMasked rules.mask_columns users.columns users.rows rows'
apply_mask_cells_example =
    apply_mask_cells same_order rules users (λ i. Perm.refl rules.mask_columns) (omega arith)

-- A parser that reads every text as SELECT … FROM app.Secret JOIN t.
abbrev select_secret : SelectStmt
select_secret =
    select no_columns (codes "app.Secret") [] (join (codes "t") [] absent (codes "INNER") no_joins)
      absent [] [] 0 0 absent []

abbrev reads_secret : Text → Option Stmt
reads_secret sql = some (select_stmt select_secret)

check_sql-passes_iff_example : (check_sql reads_secret rules (codes "select 1") ≡ none) ↔ (
    NoPattern (codes "select 1") rules.deny_statements
    × NoneDenied (extract_table_names reads_secret (codes "select 1")) rules.deny_tables
    × NoneDenied (extract_column_refs reads_secret (codes "select 1")) rules.deny_columns)
check_sql-passes_iff_example = check_sql-passes_iff reads_secret rules (codes "select 1")

check_sql-select_iff_example : (check_sql reads_secret rules (codes "select 1") ≡ none) ↔ (
    NoPattern (codes "select 1") rules.deny_statements
    × ((t : Text) → mentions select_secret t ≡ true → any (equal_fold t) rules.deny_tables ≡ false)
    × NoneDenied (extract_column_refs reads_secret (codes "select 1")) rules.deny_columns)
check_sql-select_iff_example =
    check_sql-select_iff reads_secret rules (codes "select 1") select_secret refl

-- Two blanks in a denied pattern.
two_blanks :
    contains
      (to_upper (normalize_whitespace (codes "DROP  TABLE t")))
      (to_upper (codes "DROP  TABLE"))
    ≡ false
unfolding normalize_whitespace upper_byte
two_blanks = refl

select_tables_iff_example :
    dbexplain.Prelude.Text.one_of (codes "Secret") (select_tables select_secret)
    ≡ mentions select_secret (codes "Secret")
select_tables_iff_example = select_tables_iff (codes "Secret") select_secret

glob_match_iff_example :
    (glob_match (codes "user:?*") (codes "user:42/x") ≡ true)
    ↔ MatchesRead (glob_tokens (codes "user:?*")) (codes "user:42/x")
glob_match_iff_example = glob_match_iff (codes "user:?*") (codes "user:42/x")

-- The variables of two masks, one of them for the data source DB1.
abbrev environment : Text → Text
environment key =
    if text_eq key (codes "MASK_COLUMNS")
    then codes "email=***,card=#"
    else if text_eq key (codes "DB1_MASK_COLUMNS")
    then codes " email = hidden"
    else []

db1_masks :
    (load environment (codes "DB1")).mask_columns
    ≡ (codes "email", codes "hidden") ∷ (codes "card", codes "#") ∷ []
unfolding load
db1_masks = refl

own_mask_wins_example :
    lookup (codes "email") (load environment (codes "DB1")).mask_columns
    ≡ (elim (lookup (codes "email") (load_mask environment (codes "DB1_MASK_COLUMNS"))) [
      | none ↦ lookup (codes "email") (load_mask environment (codes "MASK_COLUMNS"))
      | some v ↦ some v
    ])
own_mask_wins_example = own_mask_wins environment (codes "DB1") (codes "email") refl
