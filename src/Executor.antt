-- ===== src/Executor.antt =====
-- `ExecQuery`, `wrapExplain` and `hasExplainPrefix` of src/internal/executor/executor.go, on options
-- whose DSN and policies are not nil. Logging and warnings are not modelled. The lock is that of this
-- call alone: what other goroutines do to it meanwhile is modelled in Query/Lock.
pub mod Lock
pub mod Clearance
pub mod Redaction
use dbexplain.Prelude.{
  ℕ, Bool, true, false, List, [], ◌∷◌, ◌++◌, Option, none, some, if◌then◌else◌, ◌⊎◌, inl, inr,
}
use dbexplain.Prelude.Text.{Text, codes, text_eq, has_prefix, to_upper, trim_space, upper_byte}
use dbexplain.SqlAst.{Stmt}
use dbexplain.Query.{QueryResult}
use dbexplain.Query.Lock.{QueryLock, lock, unlock}
use dbexplain.Policy.Config.{Config}
use dbexplain.Policy.Check.{Denied, check_sql}
use dbexplain.Policy.Native.{check_native}
use dbexplain.Policy.Mask.{apply_mask}
use dbexplain.Policy.Redact.{strip_denied_columns}
use dbexplain.SqlGuard.Validate.{Verdict, accepted, validate}
use dbexplain.SqlGuard.Limit.{auto_limit}

-- `query.ExecuteOpts`, less the DSN and the tables for JOIN, which this function leaves empty.
pub record ExecuteOpts : Type 0 where
  pub sql : Text
  pub max_rows : ℕ
  pub timeout : ℕ
  pub explain : Bool

-- What the select statement receives: a table, an error, or the signal of the timer.
pub data Answer : Type 0 where
  answered : QueryResult → Answer
  errored : Text → Answer
  late : Answer

-- `conn` is `none` for a connector that is not Queryable, `orders` gives the orders in which Go
-- ranges over the masks.
pub record ExecOptions : Type 0 where
  pub conn : Option (ExecuteOpts → Answer)
  pub kind : Text
  pub label : Text
  pub sql : Text
  pub limit : ℕ
  pub explain : Bool
  pub timeout_sec : ℕ
  pub policies : Config
  pub orders : ℕ → List (Text × Text)
  pub is_sql : Bool

-- `mask_panicked` is an index out of range in ApplyMask, `strip_panicked` the negative capacity in
-- StripDeniedColumns, `unlock_fatal` the fatal error of unlocking a mutex that is not locked.
pub data ExecError : Type 0 where
  invalid : Verdict → ExecError
  denied : Denied → ExecError
  concurrent_limit not_supported query_error : Text → ExecError
  query_timeout : ℕ → ExecError
  mask_panicked strip_panicked unlock_fatal : ExecError

pub data Outcome : Type 0 where
  returned : QueryResult → Outcome
  failed : ExecError → Outcome

-- What a call does: its outcome, what it sends to the connector, and the lock behind it.
pub record Run : Type 0 where
  pub outcome : Outcome
  pub sent : List ExecuteOpts
  pub lock_state : Option QueryLock

unfoldable pub explain_prefix : Text → Text
explain_prefix kind =
    if text_eq kind (codes "mysql")
    then codes "EXPLAIN FORMAT=JSON "
    else if text_eq kind (codes "postgres")
    then codes "EXPLAIN (ANALYZE, BUFFERS, FORMAT TEXT) "
    else if text_eq kind (codes "gaussdb")
    then codes "EXPLAIN (ANALYZE, FORMAT TEXT) "
    else if text_eq kind (codes "sqlite")
    then codes "EXPLAIN QUERY PLAN "
    else if text_eq kind (codes "clickhouse")
    then codes "EXPLAIN PLAN "
    else if text_eq kind (codes "oracle")
    then codes "EXPLAIN PLAN FOR "
    else codes "EXPLAIN "

unfoldable pub wrap_explain : Text → Text → Text
unfolding explain_prefix
wrap_explain sql kind = explain_prefix kind ++ sql

unfoldable pub has_explain_prefix : Text → Bool
unfolding upper_byte
has_explain_prefix sql = has_prefix (to_upper (trim_space sql)) (codes "EXPLAIN")

-- The error of the guard, or what follows it.
abbrev pub unless_invalid : Verdict → ExecError ⊎ Text → ExecError ⊎ Text
unless_invalid accepted next = next
unless_invalid v next = inl (invalid v)

-- The error of the policy check, or what follows it.
abbrev pub unless_denied : Option Denied → Text → ExecError ⊎ Text
unless_denied none sql = inr sql
unless_denied (some d) sql = inl (denied d)

-- Behind the checks: masks, then the columns that are stripped.
unfoldable pub finish : ExecOptions → Answer → Outcome
unfolding apply_mask strip_denied_columns
finish o late = failed (query_timeout o.timeout_sec)
finish o (errored e) = failed (query_error e)
finish o (answered r) = elim (apply_mask o.orders o.policies r) [
  | none ↦ failed mask_panicked
  | some masked ↦ elim (strip_denied_columns o.policies masked) [
    | none ↦ failed strip_panicked
    | some stripped ↦ returned stripped
  ]
]

abbrev pub exec_opts : ExecOptions → Text → ExecuteOpts
exec_opts o sql = record {
  sql = sql;
  max_rows = o.limit;
  timeout = o.timeout_sec;
  explain = o.explain;
}

-- From the test for a Queryable connector on.
unfoldable pub ask : ExecOptions → Text → Option QueryLock → Run
unfolding finish
ask o sql l = elim o.conn [
  | none ↦ record { outcome = failed (not_supported o.kind); sent = []; lock_state = l }
  | some run ↦ record {
    outcome = finish o (run (exec_opts o sql));
    sent = exec_opts o sql ∷ [];
    lock_state = l;
  }
]

-- The deferred `Unlock`.
unfoldable pub release : Text → QueryLock → Run → Run
unfolding unlock
release label q r = elim (unlock label q) [
  | none ↦ record r { outcome = failed unlock_fatal; lock_state = some q }
  | some q' ↦ record r { lock_state = some q' }
]

-- The concurrency control around the query; `none` where the options hold no lock.
unfoldable pub guarded : ExecOptions → Text → Option QueryLock → Run
unfolding ask release lock
guarded o sql none = ask o sql none
guarded o sql (some q) =
    let (q', ok) = lock o.label q in
    if ok
    then release o.label q' (ask o sql (some q'))
    else record { outcome = failed (concurrent_limit o.label); sent = []; lock_state = some q' }

abbrev pub run_prepared : ExecOptions → Option QueryLock → ExecError ⊎ Text → Run
run_prepared o l (inl e) = record { outcome = failed e; sent = []; lock_state = l }
run_prepared o l (inr sql) = guarded o sql l

module _ (parse : Text → Option Stmt) (fuel : ℕ) where
  -- What is run in place of the query: EXPLAIN around it, or a LIMIT added.
  unfoldable pub transform : ExecOptions → Text
  unfolding wrap_explain has_explain_prefix auto_limit
  transform o =
      if o.explain
      then (if has_explain_prefix o.sql then o.sql else wrap_explain o.sql o.kind)
      else auto_limit parse o.sql o.limit

  -- The checks, and the text that they let through.
  unfoldable pub prepare : ExecOptions → ExecError ⊎ Text
  unfolding transform
  prepare o =
      if o.is_sql
      then unless_invalid (validate parse fuel o.sql)
          (unless_denied (check_sql parse o.policies o.sql) (transform o))
      else unless_denied (check_native o.policies o.sql o.kind) o.sql

  unfoldable pub exec_query : ExecOptions → Option QueryLock → Run
  unfolding prepare guarded
  exec_query o l = run_prepared o l (prepare o)
