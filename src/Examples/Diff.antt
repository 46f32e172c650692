-- ===== src/Examples/Diff.antt =====
-- The theorems on src/internal/diff at concrete inputs, and tests.
use dbexplain.Prelude.{List, Option, none, some, map, true, false, [], ◌∷◌, ◌≡◌, ◌↔◌, refl, All}
use dbexplain.Prelude.Map.{lookup}
use dbexplain.Prelude.Text.{Text, codes, lower_byte}
use dbexplain.Diff.Column.{
  Column, compare_column_fields, compare_column_fields_iff, SameFields, IsChangeOf, normalize_type,
  format_bool,
}
use dbexplain.Diff.Index.{SameIndexes, Status, removed}
use dbexplain.Diff.ForeignKey.{ForeignKey, SameFks}
use dbexplain.Diff.Table.{Table, diff_tables}
use dbexplain.Diff.Table.Laws.{SameColumns, diff_tables-none_iff}
use dbexplain.Diff.Universe.{diff_universe, TableDiff}
use dbexplain.Diff.Universe.Laws.{Unchanged, diff_universe_nil_iff}
use dbexplain.Diff.Key.{extract_table, key_instance, key_db, key_parts, split_n}

abbrev id_column : Column
id_column = record {
  name = codes "id";
  type = codes "INT";
  nullable = false;
  default = [];
  comment = [];
  is_primary = true;
  is_unique = true;
  is_index = true;
  is_sort_key = false;
  is_partition_key = false;
}

abbrev nullable_id : Column
nullable_id = record id_column { type = codes " int"; nullable = true }

compare-nullable :
    compare_column_fields id_column nullable_id
    ≡ (record {
      name = codes "id";
      field = codes "nullable";
      old_val = codes "false";
      new_val = codes "true";
    })
      ∷ []
unfolding compare_column_fields normalize_type lower_byte format_bool
compare-nullable = refl

compare_column_fields_iff_example :
    ((compare_column_fields id_column nullable_id ≡ []) ↔ SameFields id_column nullable_id)
    × All (IsChangeOf (codes "id")) (compare_column_fields id_column nullable_id)
compare_column_fields_iff_example = compare_column_fields_iff id_column nullable_id

extract_table-short : extract_table (codes "main/users") ≡ codes "main/users"
unfolding extract_table split_n
extract_table-short = refl

key_parts_example :
    (key_instance (codes "prod/shop/a/b") ≡ codes "prod")
    × (key_db (codes "prod/shop/a/b") ≡ codes "shop")
    × (extract_table (codes "prod/shop/a/b") ≡ codes "a/b")
key_parts_example = key_parts (codes "prod") (codes "shop") (codes "a/b") refl refl

abbrev cascading : ForeignKey
cascading = record {
  name = codes "fk_user";
  columns = codes "user_id" ∷ [];
  ref_instance = [];
  ref_db = [];
  ref_table = codes "users";
  ref_columns = codes "id" ∷ [];
  on_delete = codes "CASCADE";
  on_update = codes "NO ACTION";
}

abbrev orders_before : Table
orders_before = record {
  columns = id_column ∷ [];
  indexes =
      (record {
        name = codes "by_id";
        columns = codes "id" ∷ [];
        unique = true;
        type = codes "BTREE";
      })
      ∷ [];
  foreign_keys = cascading ∷ [];
}

abbrev orders_after : Table
orders_after = record {
  columns = (record id_column { type = codes "int" }) ∷ [];
  indexes =
      (record {
        name = codes "BY_ID";
        columns = codes "id" ∷ [];
        unique = true;
        type = codes "BTREE";
      })
      ∷ [];
  foreign_keys = (record cascading { on_delete = codes "RESTRICT" }) ∷ [];
}

diff_tables-none_iff_example : (diff_tables orders_before orders_after ≡ none) ↔ (
    SameColumns orders_before.columns orders_after.columns
    × (SameIndexes orders_before.indexes orders_after.indexes
        × SameFks orders_before.foreign_keys orders_after.foreign_keys))
diff_tables-none_iff_example = diff_tables-none_iff orders_before orders_after

-- A foreign key that no longer cascades is not reported.
on_delete_unreported : diff_tables orders_before orders_after ≡ none
unfolding diff_tables compare_column_fields normalize_type lower_byte format_bool
on_delete_unreported = refl

abbrev orders_key : Text
orders_key = codes "prod/shop/orders"

diff_universe_nil_iff_example :
    (diff_universe
        ((orders_key, true) ∷ [])
        ((orders_key, true) ∷ [])
        ((orders_key, orders_before) ∷ [])
        ((orders_key, orders_after) ∷ [])
      ≡ [])
    ↔ ((k : Text)
        → Unchanged
            (lookup k ((orders_key, true) ∷ []))
            (lookup k ((orders_key, true) ∷ []))
            (lookup k ((orders_key, orders_before) ∷ []))
            (lookup k ((orders_key, orders_after) ∷ [])))
diff_universe_nil_iff_example =
    diff_universe_nil_iff ((orders_key, true) ∷ []) ((orders_key, true) ∷ [])
      ((orders_key, orders_before) ∷ []) ((orders_key, orders_after) ∷ [])

abbrev seen : TableDiff → Text × Option Status
seen d = (d.table, d.status)

abbrev shown : TableDiff → Option Status × List Text
shown d = (d.status, map (λ c. c.old_val) d.columns)

-- A table of both scans without its old snapshot is reported, with no status.
snapshot_missing :
    map seen (
      diff_universe
        ((orders_key, true) ∷ [])
        ((orders_key, true) ∷ [])
        []
        ((orders_key, orders_after) ∷ []))
    ≡ (codes "orders", none) ∷ []
unfolding diff_universe split_n
snapshot_missing = refl

removed_described :
    map shown (diff_universe ((orders_key, true) ∷ []) [] ((orders_key, orders_before) ∷ []) [])
    ≡ (some removed, codes "INT nullable=false default=\"\" comment=\"\" primary=true" ∷ []) ∷ []
unfolding diff_universe format_bool
removed_described = refl
