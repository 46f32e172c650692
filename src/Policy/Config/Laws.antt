-- ===== src/Policy/Config/Laws.antt =====
-- The masks that `Load` of src/internal/policy/policy.go reads.
use dbexplain.Prelude.{
  Bool, true, false, List, [], ◌∷◌, ◌++◌, none, some, Option-cases, is_empty, if◌then◌else◌,
  if-false, ◌≡◌, refl, sym, subst, ap, ◌∙◌, inl, inr,
}
use dbexplain.Prelude.Text.{Text, codes, trim_space, split, cut}
use dbexplain.Prelude.Map.{lookup, insert, IsMap, insert-IsMap, lookup-insert_all}
use dbexplain.Policy.Config.{load, load_mask, add_masks, add_mask}

if-IsMap : (b : Bool) (m n : List (Text × Text)) → IsMap m → IsMap n → IsMap (if b then m else n)
if-IsMap true m n h k = h
if-IsMap false m n h k = k

add_mask-no_cut :
    (pair : Text) (masks : List (Text × Text)) → cut pair b'=' ≡ none → add_mask pair masks ≡ masks
unfolding add_mask
add_mask-no_cut pair masks e = rw (e, add_mask) refl

add_mask-cut :
    (pair col repl : Text) (masks : List (Text × Text))
    → cut pair b'=' ≡ some (col, repl)
    → add_mask pair masks ≡ (
        if is_empty (trim_space col)
        then masks
        else insert (trim_space col) (trim_space repl) masks)
unfolding add_mask
add_mask-cut pair col repl masks e = rw (e, add_mask) refl

add_mask-IsMap :
    (pair : Text) (masks : List (Text × Text)) → IsMap masks → IsMap (add_mask pair masks)
add_mask-IsMap pair masks h = elim (Option-cases (cut pair b'=')) [
  | inl e ↦ subst IsMap (sym (add_mask-no_cut pair masks e)) h
  | inr ((col, repl), e) ↦ subst IsMap (sym (add_mask-cut pair col repl masks e)) (
      if-IsMap (is_empty (trim_space col)) masks _ h
        (insert-IsMap (trim_space col) (trim_space repl) masks h))
]

add_masks-IsMap :
    (pairs : List Text) (masks : List (Text × Text)) → IsMap masks → IsMap (add_masks pairs masks)
unfolding add_masks
add_masks-IsMap [] masks h = h
add_masks-IsMap (p ∷ pairs) masks h = add_masks-IsMap pairs _ (
    if-IsMap (is_empty (trim_space p)) masks (add_mask (trim_space p) masks) h
      (add_mask-IsMap (trim_space p) masks h))

load_mask-IsMap : (getenv : Text → Text) (key : Text) → IsMap (load_mask getenv key)
unfolding load_mask
load_mask-IsMap getenv key =
    if-IsMap (is_empty (getenv key)) [] _ tt (add_masks-IsMap (split (getenv key) b',') [] tt)

-- The variable of one data source.
abbrev pub own_variable : Text → Text
own_variable env_key = env_key ++ codes "_" ++ codes "MASK_COLUMNS"

-- Where the data source has a key, the mask that a configuration holds for a pattern is the one of
-- the data source's own variable, and that of the global variable where there is none.
pub own_mask_wins :
    (getenv : Text → Text) (env_key pattern : Text)
    → is_empty env_key ≡ false
    → lookup pattern (load getenv env_key).mask_columns
      ≡ (elim (lookup pattern (load_mask getenv (own_variable env_key))) [
        | none ↦ lookup pattern (load_mask getenv (codes "MASK_COLUMNS"))
        | some v ↦ some v
      ])
unfolding load
own_mask_wins getenv env_key pattern h =
    ap (lookup pattern) (if-false (is_empty env_key) _ _ h)
    ∙ lookup-insert_all pattern _ _ (load_mask-IsMap getenv (own_variable env_key))
