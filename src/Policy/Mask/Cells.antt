-- ===== src/Policy/Mask/Cells.antt =====
-- What a reader of the masked table sees, whatever the order in which Go ranges over the masks.
use mathlib.Core.List.{Perm}
use dbexplain.Prelude.{
  is_empty→nil, ◌≤◌, ℕ, suc, ◌≡◌, refl, sym, ◌∙◌, ◌&&◌, map, length, any, All, List, [], ◌∷◌, Bool,
  true, false, Option, none, some, is_empty, if◌then◌else◌, arith, Bool-cases, inl, inr,
  Option-cases,
}
use dbexplain.Prelude.Text.{Text, text_eq, text_eq_refl}
use dbexplain.Prelude.Perm.{any-perm}
use dbexplain.Query.{ColumnInfo, Row, QueryResult}
use dbexplain.Policy.Config.{Config}
use dbexplain.Policy.Columns.{match_column}
use dbexplain.Policy.Mask.{first_match, apply_mask}
use dbexplain.Policy.Mask.Laws.{masked, masked_row, IsTable, apply_mask-eq}

-- Some mask is for the column.
abbrev pub is_masked : List (Text × Text) → Text → Bool
is_masked masks name = any (λ m. match_column name m.0) masks

-- The replacement of some mask for the column is `t`.
abbrev pub offers : List (Text × Text) → Text → Text → Bool
offers masks name t = any (λ m. match_column name m.0 && text_eq t m.1) masks

-- How a cell of a column may come out.
abbrev pub CellMasked : List (Text × Text) → Text → Option Text → Option Text → Type 0
CellMasked masks name none w = w ≡ none
CellMasked masks name (some v) w =
    if is_masked masks name
    then ((t : Text) × (w ≡ some t) × (offers masks name t ≡ true))
    else w ≡ some v

abbrev pub RowMasked : List (Text × Text) → List ColumnInfo → Row → Row → Type 0
RowMasked masks [] row row' = row' ≡ row
RowMasked masks (col ∷ cols) (v ∷ row) (w ∷ row') =
    CellMasked masks col.name v w × RowMasked masks cols row row'
RowMasked masks _ row row' = ⊥

abbrev pub RowsMasked : List (Text × Text) → List ColumnInfo → List Row → List Row → Type 0
RowsMasked masks cols [] [] = Unit
RowsMasked masks cols (row ∷ rows) (row' ∷ rows') =
    RowMasked masks cols row row' × RowsMasked masks cols rows rows'
RowsMasked masks cols _ _ = ⊥

first_match-offers :
    (name t : Text) (masks : List (Text × Text))
    → first_match name masks ≡ some t
    → offers masks name t ≡ true
unfolding first_match
first_match-offers name t [] h = cc
first_match-offers name t ((p, u) ∷ masks) h =
    ground (arith, first_match-offers name t masks, text_eq_refl t)

first_match-masked :
    (name t : Text) (masks : List (Text × Text))
    → first_match name masks ≡ some t
    → is_masked masks name ≡ true
unfolding first_match
first_match-masked name t [] h = cc
first_match-masked name t ((p, u) ∷ masks) h = ground (arith, first_match-masked name t masks)

first_match-unmasked :
    (name : Text) (masks : List (Text × Text))
    → first_match name masks ≡ none
    → is_masked masks name ≡ false
unfolding first_match
first_match-unmasked name [] h = refl
first_match-unmasked name ((p, u) ∷ masks) h = ground (arith, first_match-unmasked name masks)

module _ (masks : List (Text × Text)) (order : List (Text × Text)) (same : Perm order masks) where
  masked-some :
      (name t : Text) (v : Option Text)
      → first_match name order ≡ some t
      → CellMasked masks name v (masked (some t) v)
  masked-some name t none h = refl
  masked-some name t (some v) h =
      rw (sym (any-perm (λ m. match_column name m.0) same) ∙ first_match-masked name t order h) (
        t,
        refl,
        sym (any-perm (λ m. match_column name m.0 && text_eq t m.1) same)
            ∙ first_match-offers name t order h,
      )

  masked-none :
      (name : Text) (v : Option Text)
      → first_match name order ≡ none
      → CellMasked masks name v (masked none v)
  masked-none name none h = refl
  masked-none name (some v) h =
      rw (sym (any-perm (λ m. match_column name m.0) same) ∙ first_match-unmasked name order h)

  masked-CellMasked :
      (name : Text) (v : Option Text) → CellMasked masks name v (masked (first_match name order) v)
  masked-CellMasked name v = elim (Option-cases (first_match name order)) [
    | inl e ↦ rw e (masked-none name v e)
    | inr (t, e) ↦ rw e (masked-some name t v e)
  ]

module _ (masks : List (Text × Text)) (orders : ℕ → List (Text × Text))
    (same : (i : ℕ) → Perm (orders i) masks) where
  masked_row-RowMasked :
      (i : ℕ) (cols : List ColumnInfo) (row : Row)
      → length cols ≤ length row
      → RowMasked masks cols row (masked_row orders i cols row)
  masked_row-RowMasked i [] row h = refl
  masked_row-RowMasked i (col ∷ cols) [] h = absurd (omega arith)
  masked_row-RowMasked i (col ∷ cols) (v ∷ row) h = (
    masked-CellMasked masks (orders i) (same i) col.name v,
    masked_row-RowMasked (suc i) cols row (omega arith),
  )

  map-masked_row-RowsMasked :
      (cols : List ColumnInfo) (rows : List Row)
      → All (λ row. length cols ≤ length row) rows
      → RowsMasked masks cols rows (map (masked_row orders 0 cols) rows)
  map-masked_row-RowsMasked cols [] h = tt
  map-masked_row-RowsMasked cols (row ∷ rows) h =
      (masked_row-RowMasked 0 cols row h.0, map-masked_row-RowsMasked cols rows h.1)

RowMasked-no_masks :
    (cols : List ColumnInfo) (row : Row) → length cols ≤ length row → RowMasked [] cols row row
RowMasked-no_masks [] row h = refl
RowMasked-no_masks (col ∷ cols) [] h = absurd (omega arith)
RowMasked-no_masks (col ∷ cols) (none ∷ row) h = (refl, RowMasked-no_masks cols row (omega arith))
RowMasked-no_masks (col ∷ cols) (some v ∷ row) h = (refl, RowMasked-no_masks cols row (omega arith))

RowsMasked-no_masks :
    (cols : List ColumnInfo) (rows : List Row)
    → All (λ row. length cols ≤ length row) rows
    → RowsMasked [] cols rows rows
RowsMasked-no_masks cols [] h = tt
RowsMasked-no_masks cols (row ∷ rows) h =
    (RowMasked-no_masks cols row h.0, RowsMasked-no_masks cols rows h.1)

apply_mask-no_masks :
    (orders : ℕ → List (Text × Text)) (c : Config) (r : QueryResult)
    → is_empty c.mask_columns ≡ true
    → apply_mask orders c r ≡ some r
unfolding apply_mask
apply_mask-no_masks orders c r h = rw h

-- On a table whose rows have a cell for each column, and for every order in which Go may range over
-- the masks, `apply_mask` does not panic; it changes the rows alone; a NULL stays NULL; a value in a
-- column that some mask matches becomes the replacement of a mask that matches; every other value
-- stays as it was.
pub apply_mask_cells :
    (orders : ℕ → List (Text × Text)) (c : Config) (r : QueryResult)
    → ((i : ℕ) → Perm (orders i) c.mask_columns)
    → IsTable r
    → (rows' : List Row) × (apply_mask orders c r ≡ some (record r { rows = rows' }))
      × RowsMasked c.mask_columns r.columns r.rows rows'
apply_mask_cells orders c r same h = elim (Bool-cases (is_empty c.mask_columns)) [
  | inl e ↦ (
    r.rows,
    apply_mask-no_masks orders c r e,
    rw (is_empty→nil c.mask_columns e) (RowsMasked-no_masks r.columns r.rows h),
  )
  | inr e ↦ (
    map (masked_row orders 0 r.columns) r.rows,
    apply_mask-eq orders c r h e,
    map-masked_row-RowsMasked c.mask_columns orders same r.columns r.rows h,
  )
]
