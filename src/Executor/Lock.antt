-- ===== src/Executor/Lock.antt =====
-- The deferred `Unlock` of `ExecQuery` of src/internal/executor/executor.go.
use dbexplain.Prelude.{
  ℕ, true, false, not, ◌&&◌, ◌||◌, Option, some, Bool-cases, ◌≡◌, ◌⊎◌, inl, inr, refl, ◌∙◌, arith,
}
use dbexplain.Prelude.Text.{Text, text_eq, text_eq_iff, text_eq_refl}
use dbexplain.SqlAst.{Stmt}
use dbexplain.Query.Lock.{QueryLock, lock, unlock}
use dbexplain.Query.Lock.Invariant.{IsLockState}
use dbexplain.Query.Lock.Labels.{is_locked, lock_adds_label, unlock_removes_label}
use dbexplain.Executor.{
  ExecOptions, Run, ask, release, guarded, prepare, exec_query, run_prepared, ExecError,
}

-- The lock is one in which the same labels are locked.
abbrev pub Releases : QueryLock → Option QueryLock → Type 0
Releases q l =
    (r : QueryLock) × (l ≡ some r) × ((k : Text) → is_locked r k ≡ is_locked q k) × IsLockState r

release-found :
    (label : Text) (q r : QueryLock) (run : Run)
    → unlock label q ≡ some r
    → (release label q run).lock_state ≡ some r
unfolding release
release-found label q r run h = rw (h, release) refl

pub guarded-locked :
    (o : ExecOptions) (sql : Text) (q : QueryLock)
    → (lock o.label q).1 ≡ true
    → guarded o sql (some q)
      ≡ release o.label (lock o.label q).0 (ask o sql (some (lock o.label q).0))
unfolding guarded
guarded-locked o sql q h = rw h refl

guarded-busy :
    (o : ExecOptions) (sql : Text) (q : QueryLock)
    → (lock o.label q).1 ≡ false
    → (guarded o sql (some q)).lock_state ≡ some (lock o.label q).0
unfolding guarded
guarded-busy o sql q h = rw h refl

-- Adding a label that is absent and removing it again, and adding one that is there.
added-removed :
    (q : QueryLock) (label k : Text)
    → is_locked q label ≡ false
    → (not (text_eq label k) && (text_eq label k || is_locked q k)) ≡ is_locked q k
added-removed q label k h = ground (arith, text_eq_iff label k, h)

added-present :
    (q : QueryLock) (label k : Text)
    → is_locked q label ≡ true
    → (text_eq label k || is_locked q k) ≡ is_locked q k
added-present q label k h = ground (arith, text_eq_iff label k, h)

guarded-Releases :
    (o : ExecOptions) (sql : Text) (q : QueryLock)
    → IsLockState q
    → Releases q (guarded o sql (some q)).lock_state
guarded-Releases o sql q st =
    let (result, added, st') = lock_adds_label q o.label st in
    let q' = (lock o.label q).0 in
    elim (Bool-cases (lock o.label q).1) [
      | inl e ↦
          let absent : is_locked q o.label ≡ false = ground (arith, result, e) in
          let present : is_locked q' o.label ≡ true =
            ground (arith, added o.label, text_eq_refl o.label) in
          let (r, unlocked, removed, st'') = unlock_removes_label q' o.label st' present in
          (
            r,
            rw (guarded-locked o sql q e) (release-found o.label q' r _ unlocked),
            λ k. removed k ∙ rw (added k) (added-removed q o.label k absent),
            st'',
          )
      | inr e ↦
          let present : is_locked q o.label ≡ true = ground (arith, result, e) in
          (q', guarded-busy o sql q e, λ k. added k ∙ added-present q o.label k present, st')
    ]

run_prepared-Releases :
    (o : ExecOptions) (q : QueryLock) (p : ExecError ⊎ Text)
    → IsLockState q
    → Releases q (run_prepared o (some q) p).lock_state
run_prepared-Releases o q (inl e) st = (q, refl, λ k. refl, st)
run_prepared-Releases o q (inr sql) st = guarded-Releases o sql q st

-- Whatever the outcome, a call that holds a lock leaves the same labels locked as before: what it
-- locks it unlocks, and the label of another call that makes it fail stays locked.
pub exec_query-Releases :
    (parse : Text → Option Stmt) (fuel : ℕ) (o : ExecOptions) (q : QueryLock)
    → IsLockState q
    → Releases q (exec_query parse fuel o (some q)).lock_state
unfolding exec_query
exec_query-Releases parse fuel o q st = run_prepared-Releases o q (prepare parse fuel o) st
