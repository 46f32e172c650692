-- ===== src/Query/Lock.antt =====
-- `QueryLock` of src/internal/query/types.go. A mutex is its address, and the mutexes of the map are
-- numbered in the order in which they are made. The critical section under `ql.mu` is one step.
pub mod Invariant
pub mod Labels
pub mod Exclusion
use dbexplain.Prelude.{
  ℕ, zero, suc, Bool, true, false, ◌==◌, List, [], ◌∷◌, Option, none, some, if◌then◌else◌, ◌≡◌,
}
use dbexplain.Prelude.Text.{Text}
use dbexplain.Prelude.Map.{lookup, insert}

-- `locks` is the map from labels to mutexes, `held` says which mutexes are locked, and `fresh` is
-- the address of the next mutex.
pub record QueryLock : Type 0 where
  pub locks : List (Text × ℕ)
  pub held : ℕ → Bool
  pub fresh : ℕ

abbrev pub set {ℓ} : {A : Type ℓ} → ℕ → A → (ℕ → A) → ℕ → A
set i v f j = if i == j then v else f j

unfoldable pub new_query_lock : QueryLock
new_query_lock = record { locks = []; held = λ a. false; fresh = 0 }

-- The critical section of `Lock`: the mutex of the label, made unlocked where there is none.
unfoldable pub mutex : Text → QueryLock → QueryLock × ℕ
unfolding lookup insert
mutex label q = elim (lookup label q.locks) [
  | some a ↦ (q, a)
  | none ↦ (
    record {
      locks = insert label q.fresh q.locks;
      held = set q.fresh false q.held;
      fresh = suc q.fresh;
    },
    q.fresh,
  )
]

-- mu.TryLock()
unfoldable pub try_lock : ℕ → QueryLock → QueryLock × Bool
try_lock a q = if q.held a then (q, false) else (record q { held = set a true q.held }, true)

-- mu.Unlock(); `none` is the fatal error on a mutex that is not locked.
unfoldable pub unlock_mutex : ℕ → QueryLock → Option QueryLock
unlock_mutex a q = if q.held a then some (record q { held = set a false q.held }) else none

unfoldable pub lock : Text → QueryLock → QueryLock × Bool
unfolding mutex try_lock
lock label q = let (q', a) = mutex label q in try_lock a q'

unfoldable pub unlock : Text → QueryLock → Option QueryLock
unfolding unlock_mutex lookup
unlock label q = elim (lookup label q.locks) [ none ↦ some q | some a ↦ unlock_mutex a q ]

-- Where a goroutine stands: outside, between the critical section of `Lock` and TryLock, behind a
-- `Lock` that returned true, and between the critical section of `Unlock` and the unlocking.
pub data Pc : Type 0 where
  idle : Pc
  trying : Text → ℕ → Pc
  holding : Text → Pc
  releasing : Text → Option ℕ → Pc

pub record System : Type 0 where
  pub lock_state : QueryLock
  pub pcs : ℕ → Pc

abbrev pub after_try : Text → Bool → Pc
after_try label true = holding label
after_try label false = idle

-- One step of goroutine `i`. A goroutine calls `Unlock` only behind a `Lock` that returned true.
pub data Step : System → System → Type 0 where
  enter_lock :
      (s : System) (i : ℕ) (label : Text)
      → s.pcs i ≡ idle
      → Step s (record {
        lock_state = (mutex label s.lock_state).0;
        pcs = set i (trying label (mutex label s.lock_state).1) s.pcs;
      })
  do_try :
      (s : System) (i : ℕ) (label : Text) (a : ℕ)
      → s.pcs i ≡ trying label a
      → Step s (record {
        lock_state = (try_lock a s.lock_state).0;
        pcs = set i (after_try label (try_lock a s.lock_state).1) s.pcs;
      })
  enter_unlock :
      (s : System) (i : ℕ) (label : Text)
      → s.pcs i ≡ holding label
      → Step s (record s { pcs = set i (releasing label (lookup label s.lock_state.locks)) s.pcs })
  skip_release :
      (s : System) (i : ℕ) (label : Text)
      → s.pcs i ≡ releasing label none
      → Step s (record s { pcs = set i idle s.pcs })
  do_release :
      (s : System) (i : ℕ) (label : Text) (a : ℕ) (q : QueryLock)
      → s.pcs i ≡ releasing label (some a)
      → unlock_mutex a s.lock_state ≡ some q
      → Step s (record { lock_state = q; pcs = set i idle s.pcs })

pub data Reach : System → System → Type 0 where
  here : {s : System} → Reach s s
  next : {s t u : System} → Reach s t → Step t u → Reach s u

abbrev pub initial : System
initial = record { lock_state = new_query_lock; pcs = λ i. idle }
