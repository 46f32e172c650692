-- ===== src/Diff/Column.antt =====
-- `compareColumnFields` and `normalizeType` of src/internal/diff/diff.go, `ColumnChange` of
-- src/internal/diff/types.go, and `Column` of src/internal/schema/types.go.
use dbexplain.Prelude.{
  Bool, true, false, not, List, [], ◌∷◌, ◌++◌, All, All-append, ◌≡◌, ◌≢◌, ◌↔◌, refl, arith,
}
use dbexplain.Prelude.Text.{Text, codes, text_eq, text_eq_iff, to_lower, trim_space, lower_byte}

pub record Column : Type 0 where
  pub name : Text
  pub type : Text
  pub nullable : Bool
  pub default : Text
  pub comment : Text
  pub is_primary : Bool
  pub is_unique : Bool
  pub is_index : Bool
  pub is_sort_key : Bool
  pub is_partition_key : Bool

pub record ColumnChange : Type 0 where
  pub name : Text
  pub field : Text
  pub old_val : Text
  pub new_val : Text

unfoldable pub normalize_type : Text → Text
unfolding lower_byte
normalize_type t = to_lower (trim_space t)

-- fmt.Sprintf("%v", b)
unfoldable pub format_bool : Bool → Text
format_bool true = codes "true"
format_bool false = codes "false"

abbrev pub bool_eq : Bool → Bool → Bool
bool_eq true b = b
bool_eq false b = not b

-- The change of one field where the test says that the values are not equal.
abbrev change : Bool → ColumnChange → List ColumnChange
change true c = []
change false c = c ∷ []

abbrev text_change : Text → Text → Text → Text → List ColumnChange
text_change name field old new =
    change (text_eq old new) (record { name = name; field = field; old_val = old; new_val = new })

unfoldable bool_change : Text → Text → Bool → Bool → List ColumnChange
unfolding format_bool
bool_change name field old new =
    change (bool_eq old new)
      (record { name = name; field = field; old_val = format_bool old; new_val = format_bool new })

unfoldable type_change : Text → Text → Text → List ColumnChange
unfolding normalize_type
type_change name old new =
    change (text_eq (normalize_type old) (normalize_type new))
      (record { name = name; field = codes "type"; old_val = old; new_val = new })

abbrev concat : List (List ColumnChange) → List ColumnChange
concat [] = []
concat (l ∷ []) = l
concat (l ∷ m ∷ ls) = l ++ concat (m ∷ ls)

-- Each change is appended to those before it.
unfoldable pub compare_column_fields : Column → Column → List ColumnChange
unfolding bool_change type_change
compare_column_fields old new = concat (
    type_change old.name old.type new.type
    ∷ bool_change old.name (codes "nullable") old.nullable new.nullable
    ∷ text_change old.name (codes "default") old.default new.default
    ∷ text_change old.name (codes "comment") old.comment new.comment
    ∷ bool_change old.name (codes "is_primary") old.is_primary new.is_primary
    ∷ bool_change old.name (codes "is_unique") old.is_unique new.is_unique
    ∷ bool_change old.name (codes "is_index") old.is_index new.is_index
    ∷ bool_change old.name (codes "is_sort_key") old.is_sort_key new.is_sort_key
    ∷ bool_change old.name (codes "is_partition_key") old.is_partition_key new.is_partition_key
    ∷ [])

-- No field of the two columns differs, types up to case and surrounding white space.
abbrev pub SameFields : Column → Column → Type 0
SameFields old new =
    (normalize_type old.type ≡ normalize_type new.type)
    × ((old.nullable ≡ new.nullable)
        × ((old.default ≡ new.default)
            × ((old.comment ≡ new.comment)
                × ((old.is_primary ≡ new.is_primary)
                    × ((old.is_unique ≡ new.is_unique)
                        × ((old.is_index ≡ new.is_index)
                            × ((old.is_sort_key ≡ new.is_sort_key)
                                × ((old.is_partition_key ≡ new.is_partition_key)))))))))

-- The change is named after the column and shows two values that differ.
abbrev pub IsChangeOf : Text → ColumnChange → Type 0
IsChangeOf name c = (c.name ≡ name) × (c.old_val ≢ c.new_val)

pub bool_eq_iff : (a b : Bool) → (bool_eq a b ≡ true) ↔ (a ≡ b)
bool_eq_iff a b = ground arith

append_nil_iff : (l m : List ColumnChange) → (l ++ m ≡ []) ↔ ((l ≡ []) × (m ≡ []))
append_nil_iff [] m = ground arith
append_nil_iff (c ∷ l) m = ground arith

change_nil_iff : (b : Bool) (c : ColumnChange) → (change b c ≡ []) ↔ (b ≡ true)
change_nil_iff b c = ground arith

text_change_nil_iff :
    (name field old new : Text) → (text_change name field old new ≡ []) ↔ (old ≡ new)
text_change_nil_iff name field old new =
    ground (arith, change_nil_iff (text_eq old new) _, text_eq_iff old new)

bool_change_nil_iff :
    (name field : Text) (old new : Bool) → (bool_change name field old new ≡ []) ↔ (old ≡ new)
unfolding bool_change
bool_change_nil_iff name field old new =
    ground (arith, change_nil_iff (bool_eq old new) _, bool_eq_iff old new)

type_change_nil_iff :
    (name old new : Text)
    → (type_change name old new ≡ []) ↔ (normalize_type old ≡ normalize_type new)
unfolding type_change
type_change_nil_iff name old new = ground (
  arith,
  change_nil_iff (text_eq (normalize_type old) (normalize_type new)) _,
  text_eq_iff (normalize_type old) (normalize_type new),
)

change-All :
    (P : ColumnChange → Type 0) (b : Bool) (c : ColumnChange)
    → (b ≡ false → P c)
    → All P (change b c)
change-All P true c h = tt
change-All P false c h = (h refl, tt)

format_bool-ne : (a b : Bool) → bool_eq a b ≡ false → format_bool a ≢ format_bool b
unfolding format_bool
format_bool-ne a b h = ground arith

text_change-All :
    (name field old new : Text) → All (IsChangeOf name) (text_change name field old new)
text_change-All name field old new =
    change-All (IsChangeOf name) _ _ (λ h. (refl, λ e. grind (arith, text_eq_iff old new, h, e)))

bool_change-All :
    (name field : Text) (old new : Bool) → All (IsChangeOf name) (bool_change name field old new)
unfolding bool_change
bool_change-All name field old new =
    change-All (IsChangeOf name) _ _ (λ h. (refl, format_bool-ne old new h))

type_change-All : (name old new : Text) → All (IsChangeOf name) (type_change name old new)
unfolding type_change
type_change-All name old new =
    change-All (IsChangeOf name) _ _
      (λ h. (refl, λ e. grind (arith, text_eq_iff (normalize_type old) (normalize_type new), h, e)))

append_nil_both :
    {l m : List ColumnChange} {X Y : Type 0}
    → ((l ≡ []) ↔ X)
    → ((m ≡ []) ↔ Y)
    → (l ++ m ≡ []) ↔ (X × Y)
append_nil_both {l = l} {m = m} h k = ground (arith, append_nil_iff l m, h, k)

All-both :
    (name : Text) (l m : List ColumnChange)
    → All (IsChangeOf name) l
    → All (IsChangeOf name) m
    → All (IsChangeOf name) (l ++ m)
All-both name l m h k = All-append (IsChangeOf name) l m h k

pub compare_column_fields_nil_iff :
    (old new : Column) → (compare_column_fields old new ≡ []) ↔ SameFields old new
unfolding compare_column_fields
compare_column_fields_nil_iff old new =
    append_nil_both (type_change_nil_iff old.name old.type new.type) (
      append_nil_both (bool_change_nil_iff old.name (codes "nullable") old.nullable new.nullable) (
        append_nil_both (text_change_nil_iff old.name (codes "default") old.default new.default) (
          append_nil_both (text_change_nil_iff old.name (codes "comment") old.comment new.comment) (
            append_nil_both
              (bool_change_nil_iff old.name (codes "is_primary") old.is_primary new.is_primary)
              (append_nil_both
                (bool_change_nil_iff old.name (codes "is_unique") old.is_unique new.is_unique)
                (append_nil_both
                  (bool_change_nil_iff old.name (codes "is_index") old.is_index new.is_index)
                  (append_nil_both
                    (bool_change_nil_iff old.name (codes "is_sort_key") old.is_sort_key
                      new.is_sort_key)
                    (bool_change_nil_iff old.name (codes "is_partition_key") old.is_partition_key
                      new.is_partition_key))))))))

compare_column_fields-All :
    (old new : Column) → All (IsChangeOf old.name) (compare_column_fields old new)
unfolding compare_column_fields
compare_column_fields-All old new = All-both _ _ _ (type_change-All old.name old.type new.type) (
    All-both _ _ _ (bool_change-All old.name (codes "nullable") old.nullable new.nullable) (
      All-both _ _ _ (text_change-All old.name (codes "default") old.default new.default) (
        All-both _ _ _ (text_change-All old.name (codes "comment") old.comment new.comment) (
          All-both _ _ _
            (bool_change-All old.name (codes "is_primary") old.is_primary new.is_primary)
            (All-both _ _ _
              (bool_change-All old.name (codes "is_unique") old.is_unique new.is_unique)
              (All-both _ _ _
                (bool_change-All old.name (codes "is_index") old.is_index new.is_index)
                (All-both _ _ _
                  (bool_change-All old.name (codes "is_sort_key") old.is_sort_key new.is_sort_key)
                  (bool_change-All old.name (codes "is_partition_key") old.is_partition_key
                    new.is_partition_key))))))))

-- No change is reported exactly if the two columns agree in each of the nine fields, types up to
-- case and surrounding white space; and each change that is reported has the name of the old column
-- and two values that differ.
pub compare_column_fields_iff :
    (old new : Column)
    → ((compare_column_fields old new ≡ []) ↔ SameFields old new)
      × All (IsChangeOf old.name) (compare_column_fields old new)
compare_column_fields_iff old new =
    (compare_column_fields_nil_iff old new, compare_column_fields-All old new)
