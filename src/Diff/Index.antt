-- ===== src/Diff/Index.antt =====
-- `diffIndexes` and `stringSliceEqual` of src/internal/diff/diff.go, `IndexChange` of
-- src/internal/diff/types.go, and `Index` of src/internal/schema/types.go.
use dbexplain.Prelude.{
  Bool, true, false, ◌&&◌, List, [], ◌∷◌, ◌++◌, Option, none, some, if◌then◌else◌, ◌≡◌, ◌↔◌, refl,
  arith,
}
use dbexplain.Prelude.Text.{Text, text_eq, text_eq_iff}
use dbexplain.Prelude.Map.{lookup}
use dbexplain.Diff.Column.{bool_eq, bool_eq_iff}
use dbexplain.Prelude.Sort.{sort_by, sort_by_nil_iff}
use dbexplain.Diff.Named.{by_name, by_name-IsMap, each, Agree, both_nil_iff}

pub record Index : Type 0 where
  pub name : Text
  pub columns : List Text
  pub unique : Bool
  pub type : Text

pub data Status : Type 0 where
  added removed changed : Status

pub record IndexChange : Type 0 where
  pub name : Text
  pub status : Status
  pub old_columns : List Text
  pub new_columns : List Text
  pub old_unique : Bool
  pub new_unique : Bool
  pub old_type : Text
  pub new_type : Text

abbrev pub string_slice_equal : List Text → List Text → Bool
string_slice_equal [] [] = true
string_slice_equal (s ∷ a) (t ∷ b) = text_eq s t && string_slice_equal a b
string_slice_equal _ _ = false

pub string_slice_equal_iff : (a b : List Text) → (string_slice_equal a b ≡ true) ↔ (a ≡ b)
string_slice_equal_iff [] [] = ground arith
string_slice_equal_iff [] (t ∷ b) = ground arith
string_slice_equal_iff (s ∷ a) [] = ground arith
string_slice_equal_iff (s ∷ a) (t ∷ b) = ground (arith, text_eq_iff s t, string_slice_equal_iff a b)

unfoldable pub index_removed : Index → Option Index → List IndexChange
index_removed old (some new) = []
index_removed old none =
    (record {
      name = old.name;
      status = removed;
      old_columns = old.columns;
      new_columns = [];
      old_unique = old.unique;
      new_unique = false;
      old_type = old.type;
      new_type = [];
    })
    ∷ []

abbrev index_equal : Index → Index → Bool
index_equal old new =
    string_slice_equal old.columns new.columns
    && (bool_eq old.unique new.unique && text_eq old.type new.type)

unfoldable pub index_added : Index → Option Index → List IndexChange
index_added new none =
    (record {
      name = new.name;
      status = added;
      old_columns = [];
      new_columns = new.columns;
      old_unique = false;
      new_unique = new.unique;
      old_type = [];
      new_type = new.type;
    })
    ∷ []
index_added new (some old) =
    if index_equal old new
    then []
    else (record {
      name = new.name;
      status = changed;
      old_columns = old.columns;
      new_columns = new.columns;
      old_unique = old.unique;
      new_unique = new.unique;
      old_type = old.type;
      new_type = new.type;
    })
      ∷ []

abbrev index_maps_diff : List (Text × Index) → List (Text × Index) → List IndexChange
unfolding each index_removed index_added
index_maps_diff old new = each index_removed new old ++ each index_added old new

unfoldable pub diff_indexes : List Index → List Index → List IndexChange
unfolding index_maps_diff by_name sort_by
diff_indexes old new =
    sort_by (λ c. c.name) (index_maps_diff (by_name (λ i. i.name) old) (by_name (λ i. i.name) new))

abbrev pub SameIndex : Index → Index → Type 0
SameIndex old new =
    (old.columns ≡ new.columns) × ((old.unique ≡ new.unique) × (old.type ≡ new.type))

index_equal_iff : (old new : Index) → (index_equal old new ≡ true) ↔ SameIndex old new
index_equal_iff old new = ground (
  arith,
  string_slice_equal_iff old.columns new.columns,
  bool_eq_iff old.unique new.unique,
  text_eq_iff old.type new.type,
)

index_added_iff : (old new : Index) → (index_added new (some old) ≡ []) ↔ SameIndex old new
unfolding index_added
index_added_iff old new = ground (arith, index_equal_iff old new)

-- The indexes of two tables agree: at every name in lower case, where the last index of a name counts,
-- either table has one or neither has, and the two have the same columns, uniqueness and type.
abbrev pub SameIndexes : List Index → List Index → Type 0
SameIndexes old new =
    (k : Text)
    → Agree SameIndex (lookup k (by_name (λ i. i.name) old)) (lookup k (by_name (λ i. i.name) new))

pub diff_indexes_nil_iff :
    (old new : List Index) → (diff_indexes old new ≡ []) ↔ SameIndexes old new
unfolding diff_indexes index_removed index_added
diff_indexes_nil_iff old new =
    let m = by_name (λ i. i.name) old in
    let n = by_name (λ i. i.name) new in
    let (f, g) = sort_by_nil_iff (λ c. c.name) (index_maps_diff m n) in
    let (f', g') =
      both_nil_iff index_removed index_added SameIndex (λ a e. cc) (λ b e. cc) (λ a b h. refl)
        (λ a b h. (index_added_iff a b).1 h) (λ a b e e'. (index_added_iff a b).0 e') m n
        (by_name-IsMap (λ i. i.name) old) (by_name-IsMap (λ i. i.name) new) in
    (λ e. f' (f e), λ h. g (g' h))
