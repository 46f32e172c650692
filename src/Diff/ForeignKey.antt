-- ===== src/Diff/ForeignKey.antt =====
-- `diffFKs` of src/internal/diff/diff.go, `FKChange` of src/internal/diff/types.go, and `ForeignKey` of
-- src/internal/schema/types.go.
use dbexplain.Prelude.{
  Bool, true, ◌&&◌, List, [], ◌∷◌, ◌++◌, Option, none, some, if◌then◌else◌, ◌≡◌, ◌↔◌, refl, arith,
}
use dbexplain.Prelude.Text.{Text, text_eq, text_eq_iff}
use dbexplain.Prelude.Map.{lookup}
use dbexplain.Prelude.Sort.{sort_by, sort_by_nil_iff}
use dbexplain.Diff.Named.{by_name, by_name-IsMap, each, Agree, both_nil_iff}
use dbexplain.Diff.Index.{
  Status, added, removed, changed, string_slice_equal, string_slice_equal_iff,
}

pub record ForeignKey : Type 0 where
  pub name : Text
  pub columns : List Text
  pub ref_instance : Text
  pub ref_db : Text
  pub ref_table : Text
  pub ref_columns : List Text
  pub on_delete : Text
  pub on_update : Text

pub record FkChange : Type 0 where
  pub name : Text
  pub status : Status
  pub old_columns : List Text
  pub new_columns : List Text
  pub old_ref_table : Text
  pub new_ref_table : Text
  pub old_ref_columns : List Text
  pub new_ref_columns : List Text

unfoldable pub fk_removed : ForeignKey → Option ForeignKey → List FkChange
fk_removed old (some new) = []
fk_removed old none =
    (record {
      name = old.name;
      status = removed;
      old_columns = old.columns;
      new_columns = [];
      old_ref_table = old.ref_table;
      new_ref_table = [];
      old_ref_columns = old.ref_columns;
      new_ref_columns = [];
    })
    ∷ []

abbrev fk_equal : ForeignKey → ForeignKey → Bool
fk_equal old new =
    string_slice_equal old.columns new.columns
    && (text_eq old.ref_table new.ref_table && string_slice_equal old.ref_columns new.ref_columns)

unfoldable pub fk_added : ForeignKey → Option ForeignKey → List FkChange
fk_added new none =
    (record {
      name = new.name;
      status = added;
      old_columns = [];
      new_columns = new.columns;
      old_ref_table = [];
      new_ref_table = new.ref_table;
      old_ref_columns = [];
      new_ref_columns = new.ref_columns;
    })
    ∷ []
fk_added new (some old) =
    if fk_equal old new
    then []
    else (record {
      name = new.name;
      status = changed;
      old_columns = old.columns;
      new_columns = new.columns;
      old_ref_table = old.ref_table;
      new_ref_table = new.ref_table;
      old_ref_columns = old.ref_columns;
      new_ref_columns = new.ref_columns;
    })
      ∷ []

abbrev fk_maps_diff : List (Text × ForeignKey) → List (Text × ForeignKey) → List FkChange
unfolding each fk_removed fk_added
fk_maps_diff old new = each fk_removed new old ++ each fk_added old new

unfoldable pub diff_fks : List ForeignKey → List ForeignKey → List FkChange
unfolding fk_maps_diff by_name sort_by
diff_fks old new =
    sort_by (λ c. c.name) (fk_maps_diff (by_name (λ k. k.name) old) (by_name (λ k. k.name) new))

abbrev pub SameFk : ForeignKey → ForeignKey → Type 0
SameFk old new =
    (old.columns ≡ new.columns)
    × ((old.ref_table ≡ new.ref_table) × (old.ref_columns ≡ new.ref_columns))

fk_equal_iff : (old new : ForeignKey) → (fk_equal old new ≡ true) ↔ SameFk old new
fk_equal_iff old new = ground (
  arith,
  string_slice_equal_iff old.columns new.columns,
  text_eq_iff old.ref_table new.ref_table,
  string_slice_equal_iff old.ref_columns new.ref_columns,
)

fk_added_iff : (old new : ForeignKey) → (fk_added new (some old) ≡ []) ↔ SameFk old new
unfolding fk_added
fk_added_iff old new = ground (arith, fk_equal_iff old new)

-- The foreign keys of two tables agree name by name in their columns and what these refer to.
abbrev pub SameFks : List ForeignKey → List ForeignKey → Type 0
SameFks old new =
    (k : Text)
    → Agree SameFk (lookup k (by_name (λ i. i.name) old)) (lookup k (by_name (λ i. i.name) new))

pub diff_fks_nil_iff : (old new : List ForeignKey) → (diff_fks old new ≡ []) ↔ SameFks old new
unfolding diff_fks fk_removed fk_added
diff_fks_nil_iff old new =
    let m = by_name (λ k. k.name) old in
    let n = by_name (λ k. k.name) new in
    let (f, g) = sort_by_nil_iff (λ c. c.name) (fk_maps_diff m n) in
    let (f', g') =
      both_nil_iff fk_removed fk_added SameFk (λ a e. cc) (λ b e. cc) (λ a b h. refl)
        (λ a b h. (fk_added_iff a b).1 h) (λ a b e e'. (fk_added_iff a b).0 e') m n
        (by_name-IsMap (λ k. k.name) old) (by_name-IsMap (λ k. k.name) new) in
    (λ e. f' (f e), λ h. g (g' h))
