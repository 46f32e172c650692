-- ===== src/Examples/Query.antt =====
-- The theorems on `QueryLock` of src/internal/query/types.go at concrete inputs, and tests.
use dbexplain.Prelude.{ℕ, true, false, not, ◌||◌, ◌&&◌, [], ◌∷◌, some, ◌≡◌, ◌≢◌, refl, arith}
use dbexplain.Prelude.Text.{Text, codes, text_eq}
use dbexplain.Prelude.Map.{lookup, insert}
use dbexplain.Query.Lock.{
  QueryLock, System, Reach, initial, enter_lock, do_try, enter_unlock, here, next, holding, trying,
  releasing, idle, mutex, try_lock, unlock_mutex, lock, unlock, new_query_lock, set,
}
use dbexplain.Query.Lock.Invariant.{owner, IsLockState}
use dbexplain.Query.Lock.Labels.{is_locked, lock_adds_label, unlock_removes_label}
use dbexplain.Query.Lock.Exclusion.{mutual_exclusion, unlock_succeeds}

abbrev prod : Text
prod = codes "prod"

-- Goroutines 0 and 1 are both behind the critical section of `Lock`; goroutine 0 is the first to
-- try, and then calls `Unlock`.
abbrev one_mutex : QueryLock
one_mutex = record { locks = (prod, 0) ∷ []; held = set 0 false (λ a. false); fresh = 1 }

abbrev entered : System
entered = record { lock_state = one_mutex; pcs = set 0 (trying prod 0) (λ i. idle) }

abbrev both_entered : System
both_entered = record { lock_state = one_mutex; pcs = set 1 (trying prod 0) entered.pcs }

abbrev first_holds : System
first_holds = record {
  lock_state = record one_mutex { held = set 0 true one_mutex.held };
  pcs = set 0 (holding prod) both_entered.pcs;
}

abbrev first_leaves : System
first_leaves = record first_holds { pcs = set 0 (releasing prod (some 0)) first_holds.pcs }

Reach-first_holds : Reach initial first_holds
unfolding mutex try_lock new_query_lock lookup insert
Reach-first_holds =
    next (next (next here (enter_lock initial 0 prod refl)) (enter_lock entered 1 prod refl))
      (do_try both_entered 0 prod 0 refl)

Reach-first_leaves : Reach initial first_leaves
unfolding lookup
Reach-first_leaves = next Reach-first_holds (enter_unlock first_holds 0 prod refl)

mutual_exclusion_example : owner (first_holds.pcs 1) ≢ some prod
unfolding owner
mutual_exclusion_example =
    mutual_exclusion first_holds 0 1 prod Reach-first_holds (omega arith) refl

unlock_succeeds_example :
    (a : ℕ) × (r : QueryLock) × (some 0 ≡ some a)
    × (unlock_mutex a first_leaves.lock_state ≡ some r)
unlock_succeeds_example = unlock_succeeds first_leaves 0 prod (some 0) Reach-first_leaves refl

pub new-IsLockState : IsLockState new_query_lock
unfolding new_query_lock lookup
new-IsLockState = (λ l a h. ground (arith, h), λ k l a h. ground (arith, h))

lock_adds_label_example :
    ((lock prod new_query_lock).1 ≡ not (is_locked new_query_lock prod))
    × ((k : Text)
        → is_locked (lock prod new_query_lock).0 k ≡ (text_eq prod k || is_locked new_query_lock k))
    × IsLockState (lock prod new_query_lock).0
lock_adds_label_example = lock_adds_label new_query_lock prod new-IsLockState

prod_locked : is_locked (lock prod new_query_lock).0 prod ≡ true
unfolding is_locked lock mutex try_lock new_query_lock lookup insert
prod_locked = refl

unlock_removes_label_example :
    (r : QueryLock) × (unlock prod (lock prod new_query_lock).0 ≡ some r)
    × ((k : Text)
        → is_locked r k ≡ (not (text_eq prod k) && is_locked (lock prod new_query_lock).0 k))
    × IsLockState r
unlock_removes_label_example =
    unlock_removes_label (lock prod new_query_lock).0 prod
      (lock_adds_label new_query_lock prod new-IsLockState).2 prod_locked
