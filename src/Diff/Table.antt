-- ===== src/Diff/Table.antt =====
-- `diffColumns` and `DiffTables` of src/internal/diff/diff.go, and the fields of `Table` of
-- src/internal/schema/types.go that they read.
pub mod Laws
use dbexplain.Prelude.{Bool, List, [], ◌∷◌, ◌++◌, Option, none, some, is_empty, ◌&&◌, if◌then◌else◌}
use dbexplain.Prelude.Text.{Text, codes}
use dbexplain.Diff.Column.{Column, ColumnChange, compare_column_fields, format_bool}
use dbexplain.Prelude.Sort.{sort_by}
use dbexplain.Diff.Named.{by_name, each}
use dbexplain.Diff.Index.{Index, IndexChange, diff_indexes}
use dbexplain.Diff.ForeignKey.{ForeignKey, FkChange, diff_fks}

pub record Table : Type 0 where
  pub columns : List Column
  pub indexes : List Index
  pub foreign_keys : List ForeignKey

-- fmt.Sprintf("%s nullable=%v", c.Type, c.Nullable)
abbrev type_and_nullable : Column → Text
unfolding format_bool
type_and_nullable c = c.type ++ codes " nullable=" ++ format_bool c.nullable

unfoldable pub column_removed : Column → Option Column → List ColumnChange
unfolding type_and_nullable compare_column_fields
column_removed old none =
    (record {
      name = old.name;
      field = codes "type";
      old_val = type_and_nullable old;
      new_val = [];
    })
    ∷ []
column_removed old (some new) = compare_column_fields old new

unfoldable pub column_added : Column → Option Column → List ColumnChange
unfolding type_and_nullable
column_added new none =
    (record {
      name = new.name;
      field = codes "type";
      old_val = [];
      new_val = type_and_nullable new;
    })
    ∷ []
column_added new (some old) = []

abbrev pub column_maps_diff : List (Text × Column) → List (Text × Column) → List ColumnChange
unfolding each column_removed column_added
column_maps_diff old new = each column_removed new old ++ each column_added old new

unfoldable pub diff_columns : List Column → List Column → List ColumnChange
unfolding column_maps_diff by_name sort_by
diff_columns old new =
    sort_by (λ c. c.name) (column_maps_diff (by_name (λ c. c.name) old) (by_name (λ c. c.name) new))

-- The fields of `TableDiff` that `DiffTables` sets; its status is "changed".
pub record Changes : Type 0 where
  pub columns : List ColumnChange
  pub indexes : List IndexChange
  pub fks : List FkChange

abbrev pub unless_empty : Changes → Option Changes
unless_empty c =
    if is_empty c.columns && (is_empty c.indexes && is_empty c.fks) then none else some c

unfoldable pub diff_tables : Table → Table → Option Changes
unfolding diff_columns diff_indexes diff_fks
diff_tables old new = unless_empty (record {
  columns = diff_columns old.columns new.columns;
  indexes = diff_indexes old.indexes new.indexes;
  fks = diff_fks old.foreign_keys new.foreign_keys;
})
