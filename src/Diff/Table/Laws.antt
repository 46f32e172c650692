-- ===== src/Diff/Table/Laws.antt =====
-- When `DiffTables` of src/internal/diff/diff.go returns nil.
use dbexplain.Prelude.{List, [], none, ◌≡◌, ◌↔◌, refl, arith}
use dbexplain.Prelude.Text.{Text}
use dbexplain.Prelude.Map.{lookup}
use dbexplain.Diff.Column.{Column, compare_column_fields_nil_iff, SameFields}
use dbexplain.Prelude.Sort.{sort_by_nil_iff}
use dbexplain.Diff.Named.{by_name, by_name-IsMap, Agree, both_nil_iff}
use dbexplain.Diff.Index.{SameIndexes, diff_indexes, diff_indexes_nil_iff}
use dbexplain.Diff.ForeignKey.{SameFks, diff_fks, diff_fks_nil_iff}
use dbexplain.Diff.Table.{
  Table, Changes, column_removed, column_added, column_maps_diff, diff_columns, unless_empty,
  diff_tables,
}

-- The columns of two tables agree name by name in all their fields.
abbrev pub SameColumns : List Column → List Column → Type 0
SameColumns old new =
    (k : Text)
    → Agree SameFields (lookup k (by_name (λ c. c.name) old)) (lookup k (by_name (λ c. c.name) new))

diff_columns_nil_iff : (old new : List Column) → (diff_columns old new ≡ []) ↔ SameColumns old new
unfolding diff_columns column_removed column_added
diff_columns_nil_iff old new =
    let m = by_name (λ c. c.name) old in
    let n = by_name (λ c. c.name) new in
    let (f, g) = sort_by_nil_iff (λ c. c.name) (column_maps_diff m n) in
    let (f', g') =
      both_nil_iff column_removed column_added SameFields (λ a e. cc) (λ b e. cc)
        (λ a b h. (compare_column_fields_nil_iff a b).1 h) (λ a b h. refl)
        (λ a b e e'. (compare_column_fields_nil_iff a b).0 e) m n (by_name-IsMap (λ c. c.name) old)
        (by_name-IsMap (λ c. c.name) new) in
    (λ e. f' (f e), λ h. g (g' h))

unless_empty_iff :
    (c : Changes) → (unless_empty c ≡ none) ↔ ((c.columns ≡ []) × ((c.indexes ≡ []) × (c.fks ≡ [])))
unless_empty_iff c = ground arith

-- `DiffTables` returns nil exactly if the two tables agree, name by name up to case, in the fields of
-- their columns, the columns, uniqueness and type of their indexes, and the columns, table and columns
-- referred to of their foreign keys; where a table has a name twice, the last one counts.
pub diff_tables-none_iff :
    (old new : Table)
    → (diff_tables old new ≡ none) ↔ (
        SameColumns old.columns new.columns
        × (SameIndexes old.indexes new.indexes × SameFks old.foreign_keys new.foreign_keys))
unfolding diff_tables
diff_tables-none_iff old new =
    let (a, a') = unless_empty_iff (record {
      columns = diff_columns old.columns new.columns;
      indexes = diff_indexes old.indexes new.indexes;
      fks = diff_fks old.foreign_keys new.foreign_keys;
    }) in
    let (c, c') = diff_columns_nil_iff old.columns new.columns in
    let (i, i') = diff_indexes_nil_iff old.indexes new.indexes in
    let (f, f') = diff_fks_nil_iff old.foreign_keys new.foreign_keys in
    (λ e. let (x, (y, z)) = a e in (c x, (i y, f z)), λ h. a' (c' h.0, (i' h.1.0, f' h.1.1)))
