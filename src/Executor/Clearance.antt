-- ===== src/Executor/Clearance.antt =====
-- What `ExecQuery` of src/internal/executor/executor.go sends to a connector.
use dbexplain.Prelude.{
  ℕ, ◌≤◌, true, false, List, [], ◌∷◌, Option, none, some, All, length, Bool-cases, Option-cases,
  ◌≡◌, ◌⊎◌, inl, inr, refl, if-true, if-false, sym, ◌∙◌, arith,
}
use dbexplain.Prelude.Text.{Text}
use dbexplain.SqlAst.{Stmt}
use dbexplain.Query.Lock.{QueryLock, lock, unlock}
use dbexplain.Policy.Check.{Denied, check_sql}
use dbexplain.Policy.Native.{check_native}
use dbexplain.SqlGuard.Validate.{Verdict, accepted, validate}
use dbexplain.Executor.{
  ExecOptions, ExecuteOpts, ExecError, Run, exec_opts, ask, release, guarded, prepare, transform,
  exec_query, unless_denied, unless_invalid, run_prepared,
}

-- At most one query, and that one with the text.
abbrev SendsOnly : ExecOptions → Text → List ExecuteOpts → Type 0
SendsOnly o sql sent = (sent ≡ []) ⊎ (sent ≡ exec_opts o sql ∷ [])

ask-SendsOnly :
    (o : ExecOptions) (sql : Text) (l : Option QueryLock) → SendsOnly o sql (ask o sql l).sent
unfolding ask
ask-SendsOnly o sql l = elim (Option-cases o.conn) [
  | inl e ↦ inl (rw e refl)
  | inr (run, e) ↦ inr (rw e refl)
]

release-sent : (label : Text) (q : QueryLock) (r : Run) → (release label q r).sent ≡ r.sent
unfolding release
release-sent label q r = elim (Option-cases (unlock label q)) [
  | inl e ↦ rw (e, release) refl
  | inr (q', e) ↦ rw (e, release) refl
]

guarded-SendsOnly :
    (o : ExecOptions) (sql : Text) (l : Option QueryLock) → SendsOnly o sql (guarded o sql l).sent
unfolding guarded
guarded-SendsOnly o sql none = ask-SendsOnly o sql none
guarded-SendsOnly o sql (some q) = elim (Bool-cases (lock o.label q).1) [
  | inl e ↦
      rw (e, release-sent o.label (lock o.label q).0 (ask o sql (some (lock o.label q).0)))
        (ask-SendsOnly o sql (some (lock o.label q).0))
  | inr e ↦ inl (rw e refl)
]

unless_denied-inr :
    (d : Option Denied) (sql t : Text) → unless_denied d sql ≡ inr t → (d ≡ none) × (t ≡ sql)
unless_denied-inr none sql t h = ground (arith, h)
unless_denied-inr (some d) sql t h = cc

unless_invalid-inr :
    (v : Verdict) (next : ExecError ⊎ Text) (t : Text)
    → unless_invalid v next ≡ inr t
    → (v ≡ accepted) × (next ≡ inr t)
unless_invalid-inr v next t h = ground (arith, h)

run_prepared-SendsOnly :
    (o : ExecOptions) (l : Option QueryLock) (p : ExecError ⊎ Text)
    → ((run_prepared o l p).sent ≡ [])
      ⊎ ((sql : Text) × (p ≡ inr sql) × ((run_prepared o l p).sent ≡ exec_opts o sql ∷ []))
run_prepared-SendsOnly o l (inl e) = inl refl
run_prepared-SendsOnly o l (inr sql) = elim (guarded-SendsOnly o sql l) [
  | inl e ↦ inl e
  | inr e ↦ inr (sql, refl, e)
]

module _ (parse : Text → Option Stmt) (fuel : ℕ) where
  -- The text passed the checks of its kind of query, and is what becomes of it.
  abbrev pub IsCleared : ExecOptions → Text → Type 0
  IsCleared o sql =
      ((o.is_sql ≡ true)
        × (validate parse fuel o.sql ≡ accepted)
        × (check_sql parse o.policies o.sql ≡ none)
        × (sql ≡ transform parse fuel o))
      ⊎ ((o.is_sql ≡ false) × (check_native o.policies o.sql o.kind ≡ none) × (sql ≡ o.sql))

  prepare-IsCleared :
      (o : ExecOptions) (sql : Text) → prepare parse fuel o ≡ inr sql → IsCleared o sql
  unfolding prepare
  prepare-IsCleared o sql h = elim (Bool-cases o.is_sql) [
    | inl e ↦
        let (valid, k) =
          unless_invalid-inr (validate parse fuel o.sql) _ sql (sym (if-true o.is_sql _ _ e) ∙ h) in
        let (passes, text) = unless_denied-inr _ _ sql k in inl (e, valid, passes, text)
    | inr e ↦
        let (passes, text) =
          unless_denied-inr (check_native o.policies o.sql o.kind) o.sql sql
            (sym (if-false o.is_sql _ _ e) ∙ h) in
        inr (e, passes, text)
  ]

  -- Every text that a call sends to the connector, whatever the outcome, is that of an SQL query that
  -- Validate accepts and CheckSQL lets through, with EXPLAIN or a LIMIT added, or that of another
  -- query that CheckNative lets through; and a call sends one at most.
  pub exec_query-sends-IsCleared :
      (o : ExecOptions) (l : Option QueryLock)
      → All (λ e. IsCleared o e.sql) (exec_query parse fuel o l).sent
        × (length (exec_query parse fuel o l).sent ≤ 1)
  unfolding exec_query
  exec_query-sends-IsCleared o l = elim (run_prepared-SendsOnly o l (prepare parse fuel o)) [
    | inl e ↦ rw e (tt, omega arith)
    | inr (sql, h, e) ↦ rw e ((prepare-IsCleared o sql h, tt), omega arith)
  ]
