-- ===== src/Diff/Universe.antt =====
-- `DiffUniverse` of src/internal/diff/diff.go, with maps as association lists and the labels that the
-- callers pass: `key_instance` and `key_db`. The time of the scan is not modelled.
pub mod Laws
use dbexplain.Prelude.{
  ℕ, ◌+◌, ◌-◌, ◌/◌, ◌%◌, ◌==◌, ltb, ◌||◌, Bool, true, false, List, [], ◌∷◌, ◌++◌, Option, none,
  some, map, if◌then◌else◌,
}
use dbexplain.Prelude.Text.{Text, codes, one_of}
use dbexplain.Prelude.Map.{lookup}
use dbexplain.Diff.Column.{Column, ColumnChange, format_bool}
use dbexplain.Diff.Key.{extract_table, key_instance, key_db}
use dbexplain.Prelude.Sort.{sort_by, add_key}
use dbexplain.Diff.Index.{IndexChange, Status, added, removed, changed}
use dbexplain.Diff.ForeignKey.{FkChange}
use dbexplain.Diff.Table.{Table, Changes, diff_tables}

-- `TableDiff`, with `none` for the empty status.
pub record TableDiff : Type 0 where
  pub instance_label : Text
  pub db : Text
  pub table : Text
  pub status : Option Status
  pub columns : List ColumnChange
  pub indexes : List IndexChange
  pub fks : List FkChange

abbrev hex_digit : ℕ → ℕ
hex_digit n = if ltb n 10 then b'0' + n else b'a' + (n - 10)

-- The escapes of %q in an ASCII text.
abbrev quote_byte : ℕ → Text
quote_byte c =
    if c == 34 || c == 92
    then 92 ∷ c ∷ []
    else if c == 7
    then codes "\\a"
    else if c == 8
    then codes "\\b"
    else if c == 9
    then codes "\\t"
    else if c == 10
    then codes "\\n"
    else if c == 11
    then codes "\\v"
    else if c == 12
    then codes "\\f"
    else if c == 13
    then codes "\\r"
    else if ltb c 32 || c == 127
    then 92 ∷ b'x' ∷ hex_digit (c / 16) ∷ hex_digit (c % 16) ∷ []
    else c ∷ []

abbrev quote_bytes : Text → Text
quote_bytes [] = 34 ∷ []
quote_bytes (c ∷ s) = quote_byte c ++ quote_bytes s

unfoldable quote : Text → Text
quote s = 34 ∷ quote_bytes s

unfoldable pub describe : Column → Text
unfolding format_bool quote
describe c =
    c.type
    ++ codes " nullable="
    ++ format_bool c.nullable
    ++ codes " default="
    ++ quote c.default
    ++ codes " comment="
    ++ quote c.comment
    ++ codes " primary="
    ++ format_bool c.is_primary

unfoldable old_column : Column → ColumnChange
unfolding describe
old_column c = record { name = c.name; field = codes "type"; old_val = describe c; new_val = [] }

unfoldable new_column : Column → ColumnChange
unfolding describe
new_column c = record { name = c.name; field = codes "type"; old_val = []; new_val = describe c }

abbrev columns_of : (Column → ColumnChange) → Option Table → List ColumnChange
columns_of f none = []
columns_of f (some t) = map f t.columns

unfoldable pub add_keys : List (Text × Bool) → List Text → List Text
add_keys [] keys = keys
add_keys ((k, v) ∷ m) keys = add_key k (add_keys m keys)

unfoldable pub sorted_keys : List (Text × Bool) → List (Text × Bool) → List Text
unfolding add_keys sort_by
sorted_keys old_fps new_fps = sort_by (λ k. k) (add_keys new_fps (add_keys old_fps []))

unfoldable pub entry :
    Text → Option Status → List ColumnChange → List IndexChange → List FkChange → TableDiff
unfolding key_instance key_db extract_table
entry key status columns indexes fks = record {
  instance_label = key_instance key;
  db = key_db key;
  table = extract_table key;
  status = status;
  columns = columns;
  indexes = indexes;
  fks = fks;
}

abbrev pub changed_entry : Text → Option Changes → Option TableDiff
unfolding entry
changed_entry key none = none
changed_entry key (some c) = some (entry key (some changed) c.columns c.indexes c.fks)

-- A key of both scans.
unfoldable pub kept_entry : Text → Option Table → Option Table → Option TableDiff
unfolding changed_entry diff_tables
kept_entry key (some old) (some new) = changed_entry key (diff_tables old new)
kept_entry key _ _ = some (entry key none [] [] [])

-- The body of the loop, from whether the key is in the old and in the new scan; `none` is `continue`.
unfoldable pub key_diff :
    Text → Option Bool → Option Bool → Option Table → Option Table → Option TableDiff
unfolding entry old_column new_column kept_entry
key_diff key (some a) none old new =
    some (entry key (some removed) (columns_of old_column old) [] [])
key_diff key none (some b) old new = some (entry key (some added) (columns_of new_column new) [] [])
key_diff key (some a) (some b) old new = kept_entry key old new
key_diff key none none old new = some (entry key none [] [] [])

abbrev pub cons_entry : Option TableDiff → List TableDiff → List TableDiff
cons_entry none l = l
cons_entry (some d) l = d ∷ l

unfoldable pub entries : (Text → Option TableDiff) → List Text → List TableDiff
entries f [] = []
entries f (k ∷ keys) = cons_entry (f k) (entries f keys)

unfoldable pub diff_universe :
    List (Text × Bool)
    → List (Text × Bool)
    → List (Text × Table)
    → List (Text × Table)
    → List TableDiff
unfolding sorted_keys entries key_diff lookup
diff_universe old_fps new_fps old_snapshots new_snapshots =
    entries
      (λ k.
        key_diff k (lookup k old_fps) (lookup k new_fps) (lookup k old_snapshots)
          (lookup k new_snapshots))
      (sorted_keys old_fps new_fps)
