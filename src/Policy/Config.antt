-- ===== src/Policy/Config.antt =====
-- `Config`, `Load`, `loadCSV` and `loadMask` of src/internal/policy/policy.go. The environment is
-- the argument `getenv`, which returns the empty text for a variable that is not set.
pub mod Laws
use dbexplain.Prelude.{not, List, [], ◌∷◌, ◌++◌, none, some, is_empty, if◌then◌else◌, keep, map}
use dbexplain.Prelude.Text.{Text, codes, trim_space, split, cut}
use dbexplain.Prelude.Map.{insert, insert_all}

pub record Config : Type 0 where
  pub deny_tables : List Text
  pub deny_columns : List Text
  pub deny_statements : List Text
  pub mask_columns : List (Text × Text)

-- A nil slice and an empty one behave alike in every caller.
unfoldable pub load_csv : (Text → Text) → Text → List Text
unfolding split
load_csv getenv key =
    let val = getenv key in
    if is_empty val then [] else keep (λ p. not (is_empty p)) (map trim_space (split val b','))

-- One entry of the loop, already trimmed: an entry with no equals sign or no column is skipped.
unfoldable pub add_mask : Text → List (Text × Text) → List (Text × Text)
unfolding cut insert
add_mask pair masks = elim (cut pair b'=') [
  | none ↦ masks
  | some (col, repl) ↦
      if is_empty (trim_space col) then masks else insert (trim_space col) (trim_space repl) masks
]

unfoldable pub add_masks : List Text → List (Text × Text) → List (Text × Text)
unfolding add_mask
add_masks [] masks = masks
add_masks (p ∷ pairs) masks =
    let pair = trim_space p in
    add_masks pairs (if is_empty pair then masks else add_mask pair masks)

unfoldable pub load_mask : (Text → Text) → Text → List (Text × Text)
unfolding split add_masks
load_mask getenv key =
    let val = getenv key in if is_empty val then [] else add_masks (split val b',') []

unfoldable pub load : (Text → Text) → Text → Config
unfolding load_csv load_mask insert_all
load getenv env_key =
    let own = env_key ++ codes "_" in
    let csv = λ (key : Text).
      load_csv getenv key ++ (if is_empty env_key then [] else load_csv getenv (own ++ key)) in
    let global_mask = load_mask getenv (codes "MASK_COLUMNS") in
    record {
      deny_tables = csv (codes "DENY_TABLES");
      deny_columns = csv (codes "DENY_COLUMNS");
      deny_statements = csv (codes "DENY_STATEMENTS");
      mask_columns =
          if is_empty env_key
          then global_mask
          else insert_all global_mask (load_mask getenv (own ++ codes "MASK_COLUMNS"));
    }
