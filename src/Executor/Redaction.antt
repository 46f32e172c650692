-- ===== src/Executor/Redaction.antt =====
-- What `ExecQuery` of src/internal/executor/executor.go returns of the table that a connector
-- answers with.
use mathlib.Core.List.{Perm}
use dbexplain.Prelude.{
  ℕ, false, List, Option, none, some, All, Bool-cases, Option-cases, ◌≡◌, ◌≢◌, ◌⊎◌, inl, inr, refl,
  sym, ap, ◌∙◌,
}
use dbexplain.Prelude.Text.{Text}
use dbexplain.SqlAst.{Stmt}
use dbexplain.Query.{Row, QueryResult}
use dbexplain.Query.Lock.{QueryLock, lock, unlock}
use dbexplain.Policy.Config.{Config}
use dbexplain.Policy.Mask.{apply_mask}
use dbexplain.Policy.Mask.Laws.{IsTable}
use dbexplain.Policy.Mask.Cells.{RowsMasked, apply_mask_cells}
use dbexplain.Policy.Redact.{denies, strip_denied_columns}
use dbexplain.Policy.Redact.Laws.{
  All-not-denied, redacted, redacted?-some, strip_denied_columns-eq-redacted,
}
use dbexplain.Executor.Lock.{guarded-locked}
use dbexplain.Executor.{
  ExecOptions, ExecuteOpts, ExecError, Run, returned, failed, query_timeout, query_error,
  not_supported, concurrent_limit, mask_panicked, strip_panicked, unlock_fatal, Answer, answered,
  errored, late, exec_opts, finish, ask, release, guarded, prepare, exec_query, run_prepared,
}

-- The result is the table of an answer to a query that was sent, behind `finish`.
abbrev Answers : ExecOptions → QueryResult → Type 0
Answers o r =
    (run : ExecuteOpts → Answer) × (e : ExecuteOpts) × (o.conn ≡ some run)
    × (finish o (run e) ≡ returned r)

-- The connector answers some query with the table.
abbrev pub Answered : ExecOptions → QueryResult → Type 0
Answered o t =
    (run : ExecuteOpts → Answer) × (e : ExecuteOpts) × (o.conn ≡ some run) × (run e ≡ answered t)

failed-ne-returned : (e : ExecError) (r : QueryResult) → failed e ≢ returned r
failed-ne-returned e r h = cc

finish-late : (o : ExecOptions) → finish o late ≡ failed (query_timeout o.timeout_sec)
unfolding finish
finish-late o = refl

finish-errored : (o : ExecOptions) (e : Text) → finish o (errored e) ≡ failed (query_error e)
unfolding finish
finish-errored o e = refl

ask-none :
    (o : ExecOptions) (sql : Text) (l : Option QueryLock)
    → o.conn ≡ none
    → (ask o sql l).outcome ≡ failed (not_supported o.kind)
unfolding ask
ask-none o sql l h = rw (h, ask) refl

ask-some :
    (o : ExecOptions) (sql : Text) (l : Option QueryLock) (run : ExecuteOpts → Answer)
    → o.conn ≡ some run
    → (ask o sql l).outcome ≡ finish o (run (exec_opts o sql))
unfolding ask
ask-some o sql l run h = rw (h, ask) refl

ask-Answers :
    (o : ExecOptions) (sql : Text) (l : Option QueryLock) (r : QueryResult)
    → (ask o sql l).outcome ≡ returned r
    → Answers o r
ask-Answers o sql l r h = elim (Option-cases o.conn) [
  | inl e ↦ absurd (failed-ne-returned (not_supported o.kind) r (sym (ask-none o sql l e) ∙ h))
  | inr (run, e) ↦ (run, exec_opts o sql, e, sym (ask-some o sql l run e) ∙ h)
]

release-fatal :
    (label : Text) (q : QueryLock) (run : Run)
    → unlock label q ≡ none
    → (release label q run).outcome ≡ failed unlock_fatal
unfolding release
release-fatal label q run h = rw (h, release) refl

release-outcome :
    (label : Text) (q q' : QueryLock) (run : Run)
    → unlock label q ≡ some q'
    → (release label q run).outcome ≡ run.outcome
unfolding release
release-outcome label q q' run h = rw (h, release) refl

release-returned :
    (label : Text) (q : QueryLock) (run : Run) (r : QueryResult)
    → (release label q run).outcome ≡ returned r
    → run.outcome ≡ returned r
release-returned label q run r h = elim (Option-cases (unlock label q)) [
  | inl e ↦ absurd (failed-ne-returned unlock_fatal r (sym (release-fatal label q run e) ∙ h))
  | inr (q', e) ↦ sym (release-outcome label q q' run e) ∙ h
]

guarded-busy :
    (o : ExecOptions) (sql : Text) (q : QueryLock)
    → (lock o.label q).1 ≡ false
    → (guarded o sql (some q)).outcome ≡ failed (concurrent_limit o.label)
unfolding guarded
guarded-busy o sql q h = rw h refl

guarded-Answers :
    (o : ExecOptions) (sql : Text) (l : Option QueryLock) (r : QueryResult)
    → (guarded o sql l).outcome ≡ returned r
    → Answers o r
unfolding guarded
guarded-Answers o sql none r h = ask-Answers o sql none r h
guarded-Answers o sql (some q) r h =
    let q' = (lock o.label q).0 in
    elim (Bool-cases (lock o.label q).1) [
      | inl e ↦ ask-Answers o sql (some q') r (
          release-returned o.label q' (ask o sql (some q')) r
            (sym (ap (λ x. x.outcome) (guarded-locked o sql q e)) ∙ h))
      | inr e ↦
          absurd
            (failed-ne-returned (concurrent_limit o.label) r (sym (guarded-busy o sql q e) ∙ h))
    ]

run_prepared-Answers :
    (o : ExecOptions) (l : Option QueryLock) (p : ExecError ⊎ Text) (r : QueryResult)
    → (run_prepared o l p).outcome ≡ returned r
    → Answers o r
run_prepared-Answers o l (inl e) r h = absurd (failed-ne-returned e r h)
run_prepared-Answers o l (inr sql) r h = guarded-Answers o sql l r h

finish-panicked :
    (o : ExecOptions) (t : QueryResult)
    → apply_mask o.orders o.policies t ≡ none
    → finish o (answered t) ≡ failed mask_panicked
unfolding finish
finish-panicked o t h = rw (h, finish) refl

finish-strip_panicked :
    (o : ExecOptions) (t masked : QueryResult)
    → apply_mask o.orders o.policies t ≡ some masked
    → strip_denied_columns o.policies masked ≡ none
    → finish o (answered t) ≡ failed strip_panicked
unfolding finish
finish-strip_panicked o t masked h k = rw (h, k, finish) refl

finish-masked :
    (o : ExecOptions) (t masked stripped : QueryResult)
    → apply_mask o.orders o.policies t ≡ some masked
    → strip_denied_columns o.policies masked ≡ some stripped
    → finish o (answered t) ≡ returned stripped
unfolding finish
finish-masked o t masked stripped h k = rw (h, k, finish) refl

returned-injective : (r s : QueryResult) → returned r ≡ returned s → s ≡ r
returned-injective r s h = cc

finish-stripped :
    (o : ExecOptions) (t masked r : QueryResult)
    → apply_mask o.orders o.policies t ≡ some masked
    → finish o (answered t) ≡ returned r
    → strip_denied_columns o.policies masked ≡ some r
finish-stripped o t masked r e h = elim (Option-cases (strip_denied_columns o.policies masked)) [
  | inl k ↦
      absurd (failed-ne-returned strip_panicked r (sym (finish-strip_panicked o t masked e k) ∙ h))
  | inr (stripped, k) ↦
      k
      ∙ ap some
          (sym (returned-injective stripped r (sym (finish-masked o t masked stripped e k) ∙ h)))
]

-- What `finish` returns comes from an answer with a table.
finish-answered :
    (o : ExecOptions) (a : Answer) (r : QueryResult)
    → finish o a ≡ returned r
    → (t : QueryResult) × (masked : QueryResult) × (a ≡ answered t)
      × (apply_mask o.orders o.policies t ≡ some masked)
      × (strip_denied_columns o.policies masked ≡ some r)
finish-answered o late r h =
    absurd (failed-ne-returned (query_timeout o.timeout_sec) r (sym (finish-late o) ∙ h))
finish-answered o (errored e) r h =
    absurd (failed-ne-returned (query_error e) r (sym (finish-errored o e) ∙ h))
finish-answered o (answered t) r h = elim (Option-cases (apply_mask o.orders o.policies t)) [
  | inl e ↦ absurd (failed-ne-returned mask_panicked r (sym (finish-panicked o t e) ∙ h))
  | inr (masked, e) ↦ (t, masked, refl, e, finish-stripped o t masked r e h)
]

some-injective : (x y : QueryResult) → some x ≡ some y → x ≡ y
some-injective x y h = cc

redacted-result :
    (c : Config) (masked t r : QueryResult)
    → masked ≡ t
    → strip_denied_columns c masked ≡ some r
    → r ≡ redacted c.deny_columns t
redacted-result c masked t r h k =
    redacted?-some c.deny_columns masked r (sym (strip_denied_columns-eq-redacted c masked) ∙ k)
    ∙ ap (redacted c.deny_columns) h

-- Where every table that the connector answers with has a cell for each column in each row, and for
-- every order in which Go may range over the masks: a table that a call returns is that of an answer
-- of the connector in which the masks are applied to the cells and the denied columns are then cut
-- out of the columns and the rows, and no column of it matches a denied pattern.
pub exec_query-redacts :
    (parse : Text → Option Stmt) (fuel : ℕ) (o : ExecOptions) (l : Option QueryLock)
    (r : QueryResult)
    → ((i : ℕ) → Perm (o.orders i) o.policies.mask_columns)
    → ((run : ExecuteOpts → Answer) (e : ExecuteOpts) (t : QueryResult)
        → o.conn ≡ some run
        → run e ≡ answered t
        → IsTable t)
    → (exec_query parse fuel o l).outcome ≡ returned r
    → (t : QueryResult) × (rows' : List Row) × Answered o t
      × RowsMasked o.policies.mask_columns t.columns t.rows rows'
      × (r ≡ redacted o.policies.deny_columns (record t { rows = rows' }))
      × All (λ col. denies o.policies.deny_columns col ≡ false) r.columns
unfolding exec_query
exec_query-redacts parse fuel o l r same tables h =
    let (run, e, conn, done) = run_prepared-Answers o l (prepare parse fuel o) r h in
    let (t, masked, answer, mask, strip) = finish-answered o (run e) r done in
    let (rows', mask', cells) =
      apply_mask_cells o.orders o.policies t same (tables run e t conn answer) in
    let table = record t { rows = rows' } in
    let cut =
      redacted-result o.policies masked table r (some-injective masked table (sym mask ∙ mask'))
        strip in
    (
      t,
      rows',
      (run, e, conn, answer),
      cells,
      cut,
      rw cut (All-not-denied o.policies.deny_columns t.columns),
    )
