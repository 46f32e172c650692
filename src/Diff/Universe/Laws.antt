-- ===== src/Diff/Universe/Laws.antt =====
-- When `DiffUniverse` of src/internal/diff/diff.go reports nothing.
use dbexplain.Prelude.{
  Bool, true, false, ◌||◌, List, [], ◌∷◌, Option, none, some, Bool-cases, ◌≡◌, ◌↔◌, inl, inr, refl,
  sym, ◌∙◌, ap, arith,
}
use dbexplain.Prelude.Text.{Text, one_of, text_eq, text_eq_iff, text_eq→eq, text_eq_refl}
use dbexplain.Prelude.Map.{lookup}
use dbexplain.Prelude.Sort.{one_of-sort_by, one_of-add_key}
use dbexplain.Diff.Index.{SameIndexes}
use dbexplain.Diff.ForeignKey.{SameFks}
use dbexplain.Diff.Table.{Table, Changes, diff_tables}
use dbexplain.Diff.Table.Laws.{SameColumns, diff_tables-none_iff}
use dbexplain.Diff.Universe.{
  TableDiff, add_keys, sorted_keys, changed_entry, kept_entry, key_diff, cons_entry, entries,
  diff_universe,
}

abbrev has : Option Bool → Bool
has none = false
has (some b) = true

one_of-add_keys :
    (k : Text) (m : List (Text × Bool)) (l : List Text)
    → one_of k (add_keys m l) ≡ (has (lookup k m) || one_of k l)
unfolding add_keys lookup
one_of-add_keys k [] l = refl
one_of-add_keys k ((j, v) ∷ m) l = ground (
  arith,
  one_of-add_key k j (add_keys m l),
  one_of-add_keys k m l,
  text_eq_iff k j,
  text_eq_iff j k,
)

one_of-sorted_keys :
    (k : Text) (m n : List (Text × Bool))
    → one_of k (sorted_keys m n) ≡ (has (lookup k n) || (has (lookup k m) || false))
unfolding sorted_keys
one_of-sorted_keys k m n =
    one_of-sort_by k (add_keys n (add_keys m []))
    ∙ one_of-add_keys k n (add_keys m [])
    ∙ ap (λ b. has (lookup k n) || b) (one_of-add_keys k m [])

cons_nil : (o : Option TableDiff) (l : List TableDiff) → cons_entry o l ≡ [] → (o ≡ none) × (l ≡ [])
cons_nil none l e = (refl, e)
cons_nil (some d) l e = absurd cc

entries_silent :
    (f : Text → Option TableDiff) (l : List Text) (k : Text)
    → entries f l ≡ []
    → one_of k l ≡ true
    → f k ≡ none
unfolding entries
entries_silent f [] k e h = absurd cc
entries_silent f (j ∷ l) k e h =
    let (none_here, rest) = cons_nil (f j) (entries f l) e in
    elim (Bool-cases (text_eq k j)) [
      | inl s ↦ ap f (text_eq→eq k j s) ∙ none_here
      | inr s ↦ entries_silent f l k rest (rw s at h)
    ]

silent_entries :
    (f : Text → Option TableDiff) (l : List Text)
    → ((k : Text) → one_of k l ≡ true → f k ≡ none)
    → entries f l ≡ []
unfolding entries
silent_entries f [] h = refl
silent_entries f (j ∷ l) h =
    rw (h j (rw (text_eq_refl j) refl)) (silent_entries f l (λ k g. h k (ground (arith, g))))

abbrev pub SameTable : Table → Table → Type 0
SameTable old new =
    SameColumns old.columns new.columns
    × (SameIndexes old.indexes new.indexes × SameFks old.foreign_keys new.foreign_keys)

-- What the scans know of a key: nothing in either, or two snapshots that agree.
abbrev pub Unchanged : Option Bool → Option Bool → Option Table → Option Table → Type 0
Unchanged none none old new = Unit
Unchanged (some a) (some b) (some old) (some new) = SameTable old new
Unchanged _ _ _ _ = ⊥

changed_entry-none : (key : Text) (c : Option Changes) → (changed_entry key c ≡ none) ↔ (c ≡ none)
unfolding changed_entry
changed_entry-none key none = (λ e. refl, λ e. refl)
changed_entry-none key (some c) = (λ e. absurd cc, λ e. absurd cc)

key_diff-Unchanged :
    (key : Text) (a b : Option Bool) (old new : Option Table)
    → (has b || (has a || false)) ≡ true
    → (key_diff key a b old new ≡ none) ↔ Unchanged a b old new
unfolding key_diff kept_entry
key_diff-Unchanged key none none old new h = absurd cc
key_diff-Unchanged key (some a) none old new h = (λ e. cc, λ s. absurd s)
key_diff-Unchanged key none (some b) old new h = (λ e. cc, λ s. absurd s)
key_diff-Unchanged key (some a) (some b) none new h = (λ e. cc, λ s. absurd s)
key_diff-Unchanged key (some a) (some b) (some old) none h = (λ e. cc, λ s. absurd s)
key_diff-Unchanged key (some a) (some b) (some old) (some new) h =
    let (f, g) = changed_entry-none key (diff_tables old new) in
    let (f', g') = diff_tables-none_iff old new in (λ e. f' (f e), λ s. g (g' s))

unlisted :
    (a b : Option Bool) (old new : Option Table)
    → (has b || (has a || false)) ≡ false
    → Unchanged a b old new
unlisted none none old new h = tt
unlisted (some a) none old new h = absurd cc
unlisted none (some b) old new h = absurd cc
unlisted (some a) (some b) old new h = absurd cc

abbrev report :
    List (Text × Bool)
    → List (Text × Bool)
    → List (Text × Table)
    → List (Text × Table)
    → Text
    → Option TableDiff
unfolding key_diff lookup
report old_fps new_fps old_snapshots new_snapshots k =
    key_diff k (lookup k old_fps) (lookup k new_fps) (lookup k old_snapshots)
      (lookup k new_snapshots)

-- `DiffUniverse` reports no table exactly if every key is in both scans or in neither, and where it is
-- in both, both snapshots are there and `DiffTables` finds that they agree: a key of both scans that
-- lacks a snapshot is reported, with an empty status.
pub diff_universe_nil_iff :
    (old_fps new_fps : List (Text × Bool)) (old_snapshots new_snapshots : List (Text × Table))
    → (diff_universe old_fps new_fps old_snapshots new_snapshots ≡ []) ↔ (
        (k : Text)
        → Unchanged
            (lookup k old_fps)
            (lookup k new_fps)
            (lookup k old_snapshots)
            (lookup k new_snapshots))
unfolding diff_universe
diff_universe_nil_iff old_fps new_fps old_snapshots new_snapshots = (
  λ e k. elim (Bool-cases (has (lookup k new_fps) || (has (lookup k old_fps) || false))) [
    | inl h ↦
        (key_diff-Unchanged k (lookup k old_fps) (lookup k new_fps) (lookup k old_snapshots)
            (lookup k new_snapshots) h).0
          (entries_silent (report old_fps new_fps old_snapshots new_snapshots)
            (sorted_keys old_fps new_fps) k e (one_of-sorted_keys k old_fps new_fps ∙ h))
    | inr h ↦
        unlisted (lookup k old_fps) (lookup k new_fps) (lookup k old_snapshots)
          (lookup k new_snapshots) h
  ],
  λ same.
      silent_entries (report old_fps new_fps old_snapshots new_snapshots)
        (sorted_keys old_fps new_fps)
        (λ k listed.
          (key_diff-Unchanged k (lookup k old_fps) (lookup k new_fps) (lookup k old_snapshots)
              (lookup k new_snapshots) (sym (one_of-sorted_keys k old_fps new_fps) ∙ listed)).1
            (same k)),
)
