-- ===== src/Examples/Executor.antt =====
-- The theorems on `ExecQuery` of src/internal/executor/executor.go at a concrete query, and tests.
use mathlib.Core.List.Perm
use dbexplain.Prelude.{
  ◌≤◌, ◌≡◌, refl, ap, ◌∙◌, subst, inr, true, false, List, [], ◌∷◌, Option, none, some, All, length,
  arith,
}
use dbexplain.Prelude.Text.{Text, codes}
use dbexplain.Prelude.Map.{lookup, insert}
use dbexplain.SqlAst.{Stmt}
use dbexplain.Query.{Row, QueryResult}
use dbexplain.Query.Lock.{new_query_lock, lock, unlock, mutex, try_lock, unlock_mutex}
use dbexplain.Policy.Columns.{match_column}
use dbexplain.Policy.Mask.{apply_mask}
use dbexplain.Policy.Mask.Laws.{IsTable}
use dbexplain.Policy.Mask.Cells.{RowsMasked}
use dbexplain.Policy.Redact.{to_strip, strip_idx, unstripped, denies, strip_denied_columns}
use dbexplain.Policy.Redact.Laws.{redacted}
use dbexplain.Policy.Check.{check_sql, extract_table_names, extract_column_refs}
use dbexplain.SqlGuard.Words.{write_ops, read_ops}
use dbexplain.SqlGuard.Validate.{validate}
use dbexplain.Examples.Query.{new-IsLockState}
use dbexplain.Executor.{
  ExecOptions, ExecuteOpts, Answer, answered, returned, exec_query, prepare, transform, guarded,
  ask, release, finish,
}
use dbexplain.Executor.{wrap_explain}
use dbexplain.Executor.Lock.{Releases, exec_query-Releases}
use dbexplain.Executor.Clearance.{IsCleared, exec_query-sends-IsCleared}
use dbexplain.Executor.Redaction.{Answered, exec_query-redacts}

abbrev refuses_all : Text → Option Stmt
refuses_all sql = none

abbrev masks : List (Text × Text)
masks = (codes "email", codes "***") ∷ []

abbrev people : QueryResult
people = record {
  columns =
      record { name = codes "pin"; type = codes "int" }
      ∷ record { name = codes "email"; type = codes "text" }
      ∷ [];
  rows = (some (codes "1") ∷ some (codes "a@b") ∷ []) ∷ [];
  row_count = 1;
  truncated = false;
  execution_time = codes "1ms";
  stripped_columns = [];
}

abbrev ask_people : ExecOptions
ask_people = record {
  conn = some (λ e. answered people);
  kind = codes "mysql";
  label = codes "prod";
  sql = codes "show t";
  limit = 100;
  explain = true;
  timeout_sec = 30;
  policies = record {
    deny_tables = codes "secret" ∷ [];
    deny_columns = codes "pin" ∷ [];
    deny_statements = [];
    mask_columns = masks;
  };
  orders = λ i. masks;
  is_sql = true;
}

abbrev shown : QueryResult
shown = record people {
  columns = record { name = codes "email"; type = codes "text" } ∷ [];
  rows = (some (codes "***") ∷ []) ∷ [];
  stripped_columns = codes "pin" ∷ [];
}

same_conn : (f g : ExecuteOpts → Answer) → some f ≡ some g → f ≡ g
same_conn f g h = cc

same_table : (t u : QueryResult) → answered t ≡ answered u → t ≡ u
same_table t u h = cc

people-IsTable :
    (run : ExecuteOpts → Answer) (e : ExecuteOpts) (t : QueryResult)
    → ask_people.conn ≡ some run
    → run e ≡ answered t
    → IsTable t
people-IsTable run e t h k =
    subst IsTable (same_table people t (ap (λ f. f e) (same_conn (λ x. answered people) run h) ∙ k))
      (omega arith, tt)

ask_people-prepared : prepare refuses_all 9 ask_people ≡ inr (codes "EXPLAIN FORMAT=JSON show t")
unfolding prepare transform validate write_ops read_ops check_sql extract_table_names
    extract_column_refs
ask_people-prepared = refl

shown_lem :
    (guarded ask_people (codes "EXPLAIN FORMAT=JSON show t") (some new_query_lock)).outcome
    ≡ returned shown
unfolding guarded ask release finish lock unlock mutex try_lock unlock_mutex new_query_lock lookup
    insert apply_mask match_column strip_denied_columns to_strip strip_idx unstripped
shown_lem = refl

ask_people-shown :
    (exec_query refuses_all 9 ask_people (some new_query_lock)).outcome ≡ returned shown
unfolding exec_query
ask_people-shown = rw ask_people-prepared shown_lem

exec_query-sends-IsCleared_example :
    All
      (λ e. IsCleared refuses_all 9 ask_people e.sql)
      (exec_query refuses_all 9 ask_people (some new_query_lock)).sent
    × (length (exec_query refuses_all 9 ask_people (some new_query_lock)).sent ≤ 1)
exec_query-sends-IsCleared_example =
    exec_query-sends-IsCleared refuses_all 9 ask_people (some new_query_lock)

exec_query-Releases_example :
    Releases new_query_lock (exec_query refuses_all 9 ask_people (some new_query_lock)).lock_state
exec_query-Releases_example =
    exec_query-Releases refuses_all 9 ask_people new_query_lock new-IsLockState

exec_query-redacts_example :
    (t : QueryResult) × (rows' : List Row) × Answered ask_people t
    × RowsMasked masks t.columns t.rows rows'
    × (shown ≡ redacted (codes "pin" ∷ []) (record t { rows = rows' }))
    × All (λ col. denies (codes "pin" ∷ []) col ≡ false) shown.columns
exec_query-redacts_example =
    exec_query-redacts refuses_all 9 ask_people (some new_query_lock) shown (λ i. Perm.refl masks)
      people-IsTable ask_people-shown

analyzed :
    wrap_explain (codes "select 1") (codes "postgres")
    ≡ codes "EXPLAIN (ANALYZE, BUFFERS, FORMAT TEXT) select 1"
unfolding wrap_explain
analyzed = refl
