-- ===== src/Query/Lock/Labels.antt =====
-- `QueryLock` of src/internal/query/types.go as a set of labels: addresses and mutexes are forgotten.
use dbexplain.Prelude.{
  ℕ, Bool, true, false, not, ◌&&◌, ◌||◌, none, some, Option-cases, ◌≡◌, inl, inr, sym, arith,
}
use dbexplain.Prelude.Text.{Text, text_eq, text_eq_iff}
use dbexplain.Prelude.Map.{lookup, lookup-insert}
use dbexplain.Query.Lock.{QueryLock, mutex, try_lock, unlock_mutex, lock, unlock, set}
use dbexplain.Query.Lock.Invariant.{
  IsLockState, IsBounded, IsInjective, mutex-IsBounded, mutex-IsInjective, mutex-lookup,
  try_lock-IsLockState,
}

-- The label is locked.
unfoldable pub is_locked : QueryLock → Text → Bool
is_locked q label = elim (lookup label q.locks) [ none ↦ false | some a ↦ q.held a ]

mutex-is_locked :
    (label k : Text) (q : QueryLock) → IsBounded q → is_locked (mutex label q).0 k ≡ is_locked q k
unfolding is_locked mutex
mutex-is_locked label k q b =
    let inserted = lookup-insert label k q.fresh q.locks in
    elim (Option-cases (lookup k q.locks)) [
      | inl e ↦ ground (arith, inserted, text_eq_iff label k, e)
      | inr (a, e) ↦ ground (arith, inserted, text_eq_iff label k, e, b k a e)
    ]

try_lock-is_locked :
    (label k : Text) (a : ℕ) (q : QueryLock)
    → IsInjective q
    → lookup label q.locks ≡ some a
    → is_locked (try_lock a q).0 k ≡ (text_eq label k || is_locked q k)
unfolding is_locked try_lock
try_lock-is_locked label k a q inj h = ground (arith, text_eq_iff label k, inj label k a h, h)

try_lock-result :
    (label : Text) (a : ℕ) (q : QueryLock)
    → lookup label q.locks ≡ some a
    → (try_lock a q).1 ≡ not (is_locked q label)
unfolding is_locked try_lock
try_lock-result label a q h = ground (arith, h)

-- For a lock whose map is injective with addresses below the next one: `Lock` returns true exactly
-- if the label is not locked; behind it the label is locked, every other label is as before, and the
-- map is again of that form.
pub lock_adds_label :
    (q : QueryLock) (label : Text)
    → IsLockState q
    → ((lock label q).1 ≡ not (is_locked q label))
      × ((k : Text) → is_locked (lock label q).0 k ≡ (text_eq label k || is_locked q k))
      × IsLockState (lock label q).0
unfolding lock
lock_adds_label q label (b, inj) =
    let r = (mutex label q).0 in
    let a = (mutex label q).1 in
    let inj' = mutex-IsInjective label q b inj in
    let at = mutex-lookup label q in
    (
      rw (sym (mutex-is_locked label label q b)) (try_lock-result label a r at),
      λ k. rw (sym (mutex-is_locked label k q b)) (try_lock-is_locked label k a r inj' at),
      try_lock-IsLockState a r (mutex-IsBounded label q b, inj'),
    )

unlock_mutex-is_locked :
    (label k : Text) (a : ℕ) (q : QueryLock)
    → IsInjective q
    → lookup label q.locks ≡ some a
    → is_locked (record q { held = set a false q.held }) k
      ≡ (not (text_eq label k) && is_locked q k)
unfolding is_locked
unlock_mutex-is_locked label k a q inj h = ground (arith, text_eq_iff label k, inj label k a h, h)

is_locked-mutex :
    (q : QueryLock) (label : Text)
    → is_locked q label ≡ true
    → (a : ℕ) × (lookup label q.locks ≡ some a) × (q.held a ≡ true)
unfolding is_locked
is_locked-mutex q label h = elim (Option-cases (lookup label q.locks)) [
  | inl e ↦ ground (arith, e, h)
  | inr (a, e) ↦ (a, e, ground (arith, e, h))
]

unlock-found :
    (q : QueryLock) (label : Text) (a : ℕ)
    → lookup label q.locks ≡ some a
    → q.held a ≡ true
    → unlock label q ≡ some (record q { held = set a false q.held })
unfolding unlock unlock_mutex
unlock-found q label a e h = ground (arith, e, h)

-- For such a lock, `Unlock` of a label that is locked succeeds; behind it the label is not locked,
-- every other label is as before, and the map is again of that form.
pub unlock_removes_label :
    (q : QueryLock) (label : Text)
    → IsLockState q
    → is_locked q label ≡ true
    → (r : QueryLock) × (unlock label q ≡ some r)
      × ((k : Text) → is_locked r k ≡ (not (text_eq label k) && is_locked q k))
      × IsLockState r
unlock_removes_label q label (b, inj) h =
    let (a, at, held) = is_locked-mutex q label h in
    (
      record q { held = set a false q.held },
      unlock-found q label a at held,
      λ k. unlock_mutex-is_locked label k a q inj at,
      (b, inj),
    )
