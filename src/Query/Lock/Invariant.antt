-- ===== src/Query/Lock/Invariant.antt =====
-- The invariant of `QueryLock` of src/internal/query/types.go and what each part of `Lock` and
-- `Unlock` does to it.
use dbexplain.Prelude.{
  ℕ, ◌<◌, true, false, Bool-cases, Option, none, some, ◌≡◌, ◌≢◌, inl, inr, arith,
}
use dbexplain.Prelude.Text.{Text, text_eq_iff, text_eq_refl}
use dbexplain.Prelude.Map.{lookup, lookup-insert}
use dbexplain.Query.Lock.{
  QueryLock, mutex, try_lock, unlock_mutex, Pc, idle, trying, holding, releasing, System, initial,
  set, after_try, new_query_lock,
}

-- The label whose lock a goroutine has.
unfoldable pub owner : Pc → Option Text
owner idle = none
owner (trying label a) = none
owner (holding label) = some label
owner (releasing label o) = some label

abbrev pub Exclusive : (ℕ → Pc) → Type 0
Exclusive pcs =
    (i j : ℕ) (label : Text) → owner (pcs i) ≡ some label → owner (pcs j) ≡ some label → i ≡ j

-- The mutex that a goroutine works with is that of its label, and is locked while it has the lock.
unfoldable pub IsSound : QueryLock → Pc → Type 0
IsSound q idle = Unit
IsSound q (trying label a) = lookup label q.locks ≡ some a
IsSound q (holding label) = (a : ℕ) × (lookup label q.locks ≡ some a) × (q.held a ≡ true)
IsSound q (releasing label o) =
    (a : ℕ) × (o ≡ some a) × (lookup label q.locks ≡ some a) × (q.held a ≡ true)

abbrev pub IsBounded : QueryLock → Type 0
IsBounded q = (label : Text) (a : ℕ) → lookup label q.locks ≡ some a → a < q.fresh

abbrev pub IsInjective : QueryLock → Type 0
IsInjective q = (k l : Text) (a : ℕ) → lookup k q.locks ≡ some a → lookup l q.locks ≡ some a → k ≡ l

-- The map keeps its mutexes, and those of them that are locked stay so.
abbrev pub Extends : QueryLock → QueryLock → Type 0
Extends q r =
    (label : Text) (a : ℕ)
    → lookup label q.locks ≡ some a
    → (lookup label r.locks ≡ some a) × (q.held a ≡ true → r.held a ≡ true)

pub Extends-IsSound : (q r : QueryLock) → Extends q r → (pc : Pc) → IsSound q pc → IsSound r pc
unfolding IsSound
Extends-IsSound q r e idle h = tt
Extends-IsSound q r e (trying label a) h = (e label a h).0
Extends-IsSound q r e (holding label) (a, h, k) = (a, (e label a h).0, (e label a h).1 k)
Extends-IsSound q r e (releasing label o) (a, p, h, k) = (a, p, (e label a h).0, (e label a h).1 k)

pub mutex-lookup :
    (label : Text) (q : QueryLock) → lookup label (mutex label q).0.locks ≡ some (mutex label q).1
unfolding mutex
mutex-lookup label q = ground (arith, lookup-insert label label q.fresh q.locks, text_eq_refl label)

pub mutex-Extends : (label : Text) (q : QueryLock) → IsBounded q → Extends q (mutex label q).0
unfolding mutex
mutex-Extends label q b k a h =
    ground (arith, lookup-insert label k q.fresh q.locks, text_eq_iff label k, b k a h, h)

pub mutex-IsBounded : (label : Text) (q : QueryLock) → IsBounded q → IsBounded (mutex label q).0
unfolding mutex
mutex-IsBounded label q b k a = ground (arith, lookup-insert label k q.fresh q.locks, b k a)

pub mutex-IsInjective :
    (label : Text) (q : QueryLock) → IsBounded q → IsInjective q → IsInjective (mutex label q).0
unfolding mutex
mutex-IsInjective label q b inj k l a = ground (
  arith,
  lookup-insert label k q.fresh q.locks,
  lookup-insert label l q.fresh q.locks,
  text_eq_iff label k,
  text_eq_iff label l,
  b k a,
  b l a,
  inj k l a,
)

pub try_lock-Extends : (a : ℕ) (q : QueryLock) → Extends q (try_lock a q).0
unfolding try_lock
try_lock-Extends a q k c h = ground (arith, h)

pub set-All :
    (P : Pc → Type 0) (i : ℕ) (pc : Pc) (f : ℕ → Pc)
    → ((j : ℕ) → i ≢ j → P (f j))
    → P pc
    → (j : ℕ) → P (set i pc f j)
set-All P i pc f h k j = ground (arith, h j, k)

-- A goroutine moves, and no other has the label that it has then.
pub set-Exclusive :
    (i : ℕ) (pc : Pc) (f : ℕ → Pc)
    → ((j : ℕ) (label : Text) → i ≢ j → owner pc ≡ some label → owner (f j) ≢ some label)
    → Exclusive f
    → Exclusive (set i pc f)
set-Exclusive i pc f h e j k label = ground (arith, h j label, h k label, e j k label)

abbrev pub IsLockState : QueryLock → Type 0
IsLockState q = IsBounded q × IsInjective q

abbrev pub IsValid : System → Type 0
IsValid s = IsLockState s.lock_state × ((i : ℕ) → IsSound s.lock_state (s.pcs i)) × Exclusive s.pcs

pub initial-IsValid : IsValid initial
unfolding new_query_lock lookup owner IsSound
initial-IsValid = (
  (λ l a h. ground (arith, h), λ k l a h. ground (arith, h)),
  λ i. tt,
  λ i j l h. ground (arith, h),
)

-- What a goroutine with the lock holds is a mutex that is locked.
pub owner-held :
    (q : QueryLock) (pc : Pc) (label : Text)
    → IsSound q pc
    → owner pc ≡ some label
    → (a : ℕ) × (lookup label q.locks ≡ some a) × (q.held a ≡ true)
unfolding owner IsSound
owner-held q idle label s h = ground (arith, h)
owner-held q (trying k a) label s h = ground (arith, h)
owner-held q (holding k) label (a, s, t) h = (a, ground (arith, s, h), t)
owner-held q (releasing k o) label (a, p, s, t) h = (a, ground (arith, s, h), t)

pub IsLockState-same :
    (q r : QueryLock) → r.locks ≡ q.locks → r.fresh ≡ q.fresh → IsLockState q → IsLockState r
IsLockState-same q r h k (b, i) =
    (λ l a e. grind (arith, h, k, b l a, e), λ j l a e f. grind (arith, h, i j l a, e, f))

pub try_lock-IsLockState : (a : ℕ) (q : QueryLock) → IsLockState q → IsLockState (try_lock a q).0
unfolding try_lock
try_lock-IsLockState a q s = IsLockState-same q (try_lock a q).0 (ground arith) (ground arith) s

pub after_try-IsSound :
    (label : Text) (a : ℕ) (q : QueryLock)
    → lookup label q.locks ≡ some a
    → IsSound (try_lock a q).0 (after_try label (try_lock a q).1)
unfolding try_lock IsSound
after_try-IsSound label a q h = elim (Bool-cases (q.held a)) [
  | inl e ↦ rw e tt
  | inr e ↦ rw e (a, h, ground arith)
]

pub after_try-owner :
    (label : Text) (a : ℕ) (q : QueryLock) (l : Text)
    → owner (after_try label (try_lock a q).1) ≡ some l
    → (label ≡ l) × (q.held a ≡ false)
unfolding try_lock owner
after_try-owner label a q l e = ground (arith, e)

-- A TryLock that succeeds finds no goroutine with the lock of the label.
pub after_try-Exclusive :
    (label : Text) (a : ℕ) (q : QueryLock) (pc : Pc) (l : Text)
    → lookup label q.locks ≡ some a
    → IsSound q pc
    → owner (after_try label (try_lock a q).1) ≡ some l
    → owner pc ≢ some l
unfolding try_lock owner
after_try-Exclusive label a q pc l h s e k =
    let (label_eq, free) = after_try-owner label a q l e in
    let (c, at, locked) = owner-held q pc l s k in grind (arith, label_eq, free, at, locked, h)

pub release-IsSound :
    (label : Text) (a : ℕ) (q : QueryLock) (pc : Pc)
    → IsInjective q
    → lookup label q.locks ≡ some a
    → owner pc ≢ some label
    → IsSound q pc
    → IsSound (record q { held = set a false q.held }) pc
unfolding owner IsSound
release-IsSound label a q idle inj h n s = tt
release-IsSound label a q (trying k c) inj h n s = s
release-IsSound label a q (holding k) inj h n (c, s, t) =
    (c, s, ground (arith, inj k label c, h, n, s, t))
release-IsSound label a q (releasing k o) inj h n (c, p, s, t) =
    (c, p, s, ground (arith, inj k label c, h, n, s, t))

pub unlock_mutex-some :
    (a : ℕ) (q r : QueryLock)
    → unlock_mutex a q ≡ some r
    → record q { held = set a false q.held } ≡ r
unfolding unlock_mutex
unlock_mutex-some a q r h = ground (arith, h)

pub releasing-mutex :
    (q : QueryLock) (label : Text) (a : ℕ)
    → IsSound q (releasing label (some a))
    → (lookup label q.locks ≡ some a) × (q.held a ≡ true)
unfolding IsSound
releasing-mutex q label a (c, e, at, locked) = (ground (arith, e, at), ground (arith, e, locked))
