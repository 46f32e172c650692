-- ===== src/Query/Lock/Exclusion.antt =====
-- No two goroutines hold the lock of one label, and none unlocks a mutex that is not locked, for
-- `QueryLock` of src/internal/query/types.go.
use dbexplain.Prelude.{ℕ, true, false, Option, some, ◌≡◌, ◌≢◌, ap, ◌∙◌, subst, arith}
use dbexplain.Prelude.Text.{Text}
use dbexplain.Prelude.Map.{lookup}
use dbexplain.Query.Lock.{
  QueryLock, mutex, try_lock, unlock_mutex, idle, releasing, System, Step, Reach, initial, set,
  enter_lock, do_try, enter_unlock, skip_release, do_release, here, next,
}
use dbexplain.Query.Lock.Invariant.{
  owner, IsSound, Extends-IsSound, mutex-lookup, mutex-Extends, mutex-IsBounded, mutex-IsInjective,
  try_lock-Extends, set-All, set-Exclusive, IsValid, initial-IsValid, try_lock-IsLockState,
  after_try-IsSound, after_try-Exclusive, release-IsSound, unlock_mutex-some, releasing-mutex,
}

abbrev released : ℕ → ℕ → System → System
released i a s = record {
  lock_state = record s.lock_state { held = set a false s.lock_state.held };
  pcs = set i idle s.pcs;
}

release-IsValid :
    (s : System) (i : ℕ) (label : Text) (a : ℕ)
    → s.pcs i ≡ releasing label (some a)
    → IsValid s
    → IsValid (released i a s)
unfolding IsSound owner
release-IsValid s i label a h (st, sound, ex) =
    let q = s.lock_state in
    let at = (releasing-mutex q label a (subst (IsSound q) h (sound i))).0 in
    (
      st,
      set-All (IsSound (record q { held = set a false q.held })) i idle s.pcs
          (λ j n.
            release-IsSound label a q (s.pcs j) st.1 at (λ k. n (ex i j label (ap owner h) k))
              (sound j))
          tt,
      set-Exclusive i idle s.pcs (λ j l n e k. ground (arith, e)) ex,
    )

-- Every step keeps the invariant.
Step-IsValid : {s t : System} → Step s t → IsValid s → IsValid t
unfolding IsSound owner
Step-IsValid (enter_lock s i label h) ((b, inj), sound, ex) =
    let q = s.lock_state in
    (
      (mutex-IsBounded label q b, mutex-IsInjective label q b inj),
      set-All (IsSound (mutex label q).0) i _ s.pcs
          (λ j n. Extends-IsSound q (mutex label q).0 (mutex-Extends label q b) (s.pcs j) (sound j))
          (mutex-lookup label q),
      set-Exclusive i _ s.pcs (λ j l n e k. ground (arith, e)) ex,
    )
Step-IsValid (do_try s i label a h) (st, sound, ex) =
    let q = s.lock_state in
    let at : lookup label q.locks ≡ some a = subst (IsSound q) h (sound i) in
    (
      try_lock-IsLockState a q st,
      set-All (IsSound (try_lock a q).0) i _ s.pcs
          (λ j n. Extends-IsSound q (try_lock a q).0 (try_lock-Extends a q) (s.pcs j) (sound j))
          (after_try-IsSound label a q at),
      set-Exclusive i _ s.pcs (λ j l n e. after_try-Exclusive label a q (s.pcs j) l at (sound j) e)
          ex,
    )
Step-IsValid (enter_unlock s i label h) (st, sound, ex) =
    let q = s.lock_state in
    let (a, at, locked) = subst (IsSound q) h (sound i) in
    (
      st,
      set-All (IsSound q) i _ s.pcs (λ j n. sound j) (a, at, at, locked),
      set-Exclusive i _ s.pcs (λ j l n e k. n (ex i j l (ap owner h ∙ e) k)) ex,
    )
Step-IsValid (skip_release s i label h) (st, sound, ex) = (
  st,
  set-All (IsSound s.lock_state) i idle s.pcs (λ j n. sound j) tt,
  set-Exclusive i idle s.pcs (λ j l n e k. ground (arith, e)) ex,
)
Step-IsValid (do_release s i label a q' h e) (st, sound, ex) =
    subst (λ r. IsValid (record { lock_state = r; pcs = set i idle s.pcs }))
      (unlock_mutex-some a s.lock_state q' e) (release-IsValid s i label a h (st, sound, ex))

Reach-IsValid : {s t : System} → Reach s t → IsValid s → IsValid t
Reach-IsValid here h = h
Reach-IsValid (next r st) h = Step-IsValid st (Reach-IsValid r h)

unlock_mutex-held :
    (a : ℕ) (q : QueryLock) → q.held a ≡ true → (r : QueryLock) × (unlock_mutex a q ≡ some r)
unfolding unlock_mutex
unlock_mutex-held a q h = (record q { held = set a false q.held }, ground (arith, h))

-- In every state that goroutines reach from a new QueryLock, in any interleaving, no two of them
-- have the lock of the same label.
pub mutual_exclusion :
    (s : System) (i j : ℕ) (label : Text)
    → Reach initial s
    → i ≢ j
    → owner (s.pcs i) ≡ some label
    → owner (s.pcs j) ≢ some label
mutual_exclusion s i j label reach n h k =
    let (st, sound, ex) = Reach-IsValid reach initial-IsValid in n (ex i j label h k)

-- In every state that goroutines reach from a new QueryLock, a goroutine in `Unlock` has found the
-- mutex of its label, which is locked, so that unlocking it is not a fatal error.
pub unlock_succeeds :
    (s : System) (i : ℕ) (label : Text) (o : Option ℕ)
    → Reach initial s
    → s.pcs i ≡ releasing label o
    → (a : ℕ) × (r : QueryLock) × (o ≡ some a) × (unlock_mutex a s.lock_state ≡ some r)
unfolding IsSound
unlock_succeeds s i label o reach h =
    let (st, sound, ex) = Reach-IsValid reach initial-IsValid in
    let (a, e, at, locked) = subst (IsSound s.lock_state) h (sound i) in
    let (r, unlocked) = unlock_mutex-held a s.lock_state locked in (a, r, e, unlocked)
