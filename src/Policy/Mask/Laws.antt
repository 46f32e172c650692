-- ===== src/Policy/Mask/Laws.antt =====
-- What `ApplyMask` does to each cell, against a description of it row by row.
use dbexplain.Policy.Config.{Config}
use mathlib.Core.Path.{subst}
use dbexplain.Prelude.{
  ◌≤◌, ℕ, suc, ◌≡◌, refl, ap, ap₂, sym, ◌∙◌, ◌++◌, map, length, length-append, append_assoc, All,
  List, [], ◌∷◌, true, false, Option, none, some, is_empty, arith, Bool-cases, inl, inr,
}
use dbexplain.Prelude.Text.{Text}
use dbexplain.Query.{ColumnInfo, Row, QueryResult}
use dbexplain.Policy.Mask.{first_match, mask_cell, mask_rows, mask_column, mask_columns, apply_mask}

-- A NULL stays, and a column that no pattern matches keeps its value.
abbrev pub masked : Option Text → Option Text → Option Text
masked none v = v
masked (some replacement) none = none
masked (some replacement) (some v) = some replacement

-- One row, whose first cell belongs to the first of the columns, which has index `i`.
abbrev pub masked_row : (ℕ → List (Text × Text)) → ℕ → List ColumnInfo → Row → Row
masked_row orders i [] row = row
masked_row orders i (col ∷ cols) [] = []
masked_row orders i (col ∷ cols) (v ∷ row) =
    masked (first_match col.name (orders i)) v ∷ masked_row orders (suc i) cols row

mask_cell-append :
    (pre : Row) (t : Text) (v : Option Text) (row : Row)
    → mask_cell (length pre) t (pre ++ v ∷ row) ≡ some (pre ++ masked (some t) v ∷ row)
unfolding mask_cell
mask_cell-append [] t none row = refl
mask_cell-append [] t (some v) row = refl
mask_cell-append (u ∷ pre) t v row = rw (mask_cell-append pre t v row)

-- A row that is split where the loop over the columns stands.
record Split : Type 0 where
  done : Row
  rest : Row

abbrev joined : Split → Row
joined s = s.done ++ s.rest

abbrev IsAt : ℕ → ℕ → Split → Type 0
IsAt i n s = (length s.done ≡ i) × (n ≤ length s.rest)

-- The loop has dealt with the first cell of the rest.
advance_parts : Option Text → Row → Row → Split
advance_parts o done [] = record { done = done; rest = [] }
advance_parts o done (v ∷ row) = record { done = done ++ masked o v ∷ []; rest = row }

advance : Option Text → Split → Split
unfolding advance_parts
advance o s = advance_parts o s.done s.rest

masked-none : (v : Option Text) → masked none v ≡ v
masked-none none = refl
masked-none (some v) = refl

mask_cell-parts :
    (t : Text) (pre row : Row) (n : ℕ)
    → suc n ≤ length row
    → mask_cell (length pre) t (pre ++ row) ≡ some (joined (advance_parts (some t) pre row))
unfolding advance_parts
mask_cell-parts t pre [] n h = absurd (omega arith)
mask_cell-parts t pre (v ∷ row) n h =
    mask_cell-append pre t v row ∙ ap some (sym (append_assoc pre (masked (some t) v ∷ []) row))

IsAt-advance_parts :
    (o : Option Text) (done row : Row) (n : ℕ)
    → suc n ≤ length row
    → IsAt (suc (length done)) n (advance_parts o done row)
unfolding advance_parts
IsAt-advance_parts o done [] n h = absurd (omega arith)
IsAt-advance_parts o done (v ∷ row) n h = omega (arith, length-append done (masked o v ∷ []))

IsAt-advance :
    (o : Option Text) (i n : ℕ) (s : Split) → IsAt i (suc n) s → IsAt (suc i) n (advance o s)
unfolding advance
IsAt-advance o i n s h =
    subst (λ k. IsAt (suc k) n (advance o s)) h.0 (IsAt-advance_parts o s.done s.rest n h.1)

All-advance :
    (o : Option Text) (i n : ℕ) (splits : List Split)
    → All (IsAt i (suc n)) splits
    → All (IsAt (suc i) n) (map (advance o) splits)
All-advance o i n [] h = tt
All-advance o i n (s ∷ splits) h = (IsAt-advance o i n s h.0, All-advance o i n splits h.1)

mask_rows-split :
    (t : Text) (i n : ℕ) (splits : List Split)
    → All (IsAt i (suc n)) splits
    → mask_rows i t (map joined splits) ≡ some (map joined (map (advance (some t)) splits))
unfolding mask_rows advance
mask_rows-split t i n [] h = refl
mask_rows-split t i n (s ∷ splits) h =
    let e : mask_cell i t (joined s) ≡ some (joined (advance_parts (some t) s.done s.rest)) =
      subst (λ k. mask_cell k t (joined s) ≡ some (joined (advance_parts (some t) s.done s.rest)))
        h.0.0 (mask_cell-parts t s.done s.rest n h.0.1) in
    rw (e, mask_rows) (rw (mask_rows-split t i n splits h.1))

joined-advance_none : (done row : Row) → joined (advance_parts none done row) ≡ done ++ row
unfolding advance_parts
joined-advance_none done [] = refl
joined-advance_none done (v ∷ row) = rw (masked-none v) (append_assoc done (v ∷ []) row)

map-joined-none : (splits : List Split) → map joined (map (advance none) splits) ≡ map joined splits
unfolding advance
map-joined-none [] = refl
map-joined-none (s ∷ splits) = ap₂ ◌∷◌ (joined-advance_none s.done s.rest) (map-joined-none splits)

mask_column-split :
    (o : Option Text) (i n : ℕ) (splits : List Split)
    → All (IsAt i (suc n)) splits
    → mask_column i o (map joined splits) ≡ some (map joined (map (advance o) splits))
unfolding mask_column
mask_column-split none i n splits h = ap some (sym (map-joined-none splits))
mask_column-split (some t) i n splits h = mask_rows-split t i n splits h

module _ (orders : ℕ → List (Text × Text)) where
  -- The row when the loop over the remaining columns is through.
  abbrev finished : ℕ → List ColumnInfo → Split → Row
  finished i cols s = s.done ++ masked_row orders i cols s.rest

  masked_row-nil : (i : ℕ) (cols : List ColumnInfo) → masked_row orders i cols [] ≡ []
  masked_row-nil i [] = refl
  masked_row-nil i (col ∷ cols) = refl

  finished-advance :
      (i : ℕ) (col : ColumnInfo) (cols : List ColumnInfo) (done row : Row)
      → done ++ masked_row orders i (col ∷ cols) row
        ≡ finished (suc i) cols (advance_parts (first_match col.name (orders i)) done row)
  unfolding advance_parts
  finished-advance i col cols done [] = ap (λ r. done ++ r) (sym (masked_row-nil (suc i) cols))
  finished-advance i col cols done (v ∷ row) = sym (append_assoc done _ _)

  map-finished-advance :
      (i : ℕ) (col : ColumnInfo) (cols : List ColumnInfo) (splits : List Split)
      → map (finished (suc i) cols) (map (advance (first_match col.name (orders i))) splits)
        ≡ map (finished i (col ∷ cols)) splits
  unfolding advance
  map-finished-advance i col cols [] = refl
  map-finished-advance i col cols (s ∷ splits) =
      ap₂ ◌∷◌ (sym (finished-advance i col cols s.done s.rest))
        (map-finished-advance i col cols splits)

  mask_columns-split :
      (i : ℕ) (cols : List ColumnInfo) (splits : List Split)
      → All (IsAt i (length cols)) splits
      → mask_columns orders i cols (map joined splits) ≡ some (map (finished i cols) splits)
  unfolding mask_columns
  mask_columns-split i [] splits h = refl
  mask_columns-split i (col ∷ cols) splits h =
      let o = first_match col.name (orders i) in
      rw (mask_column-split o i (length cols) splits h, mask_columns)
        (mask_columns-split (suc i) cols (map (advance o) splits)
            (All-advance o i (length cols) splits h)
          ∙ ap some (map-finished-advance i col cols splits))

-- Every row has a cell for each column.
abbrev pub IsTable : QueryResult → Type 0
IsTable r = All (λ row. length r.columns ≤ length row) r.rows

abbrev start : Row → Split
start row = record { done = []; rest = row }

map-joined-start : (rows : List Row) → map joined (map start rows) ≡ rows
map-joined-start [] = refl
map-joined-start (row ∷ rows) = ap (λ r. row ∷ r) (map-joined-start rows)

map-finished-start :
    (orders : ℕ → List (Text × Text)) (cols : List ColumnInfo) (rows : List Row)
    → map (finished orders 0 cols) (map start rows) ≡ map (masked_row orders 0 cols) rows
map-finished-start orders cols [] = refl
map-finished-start orders cols (row ∷ rows) =
    ap (λ r. masked_row orders 0 cols row ∷ r) (map-finished-start orders cols rows)

All-start :
    (n : ℕ) (rows : List Row) → All (λ row. n ≤ length row) rows → All (IsAt 0 n) (map start rows)
All-start n [] h = tt
All-start n (row ∷ rows) h = ((refl, h.0), All-start n rows h.1)

mask_columns-eq :
    (orders : ℕ → List (Text × Text)) (r : QueryResult)
    → IsTable r
    → mask_columns orders 0 r.columns r.rows ≡ some (map (masked_row orders 0 r.columns) r.rows)
mask_columns-eq orders r h =
    ap (mask_columns orders 0 r.columns) (sym (map-joined-start r.rows))
    ∙ mask_columns-split orders 0 r.columns (map start r.rows) (All-start _ r.rows h)
    ∙ ap some (map-finished-start orders r.columns r.rows)

map-no_columns :
    (orders : ℕ → List (Text × Text)) (rows : List Row) → map (masked_row orders 0 []) rows ≡ rows
map-no_columns orders [] = refl
map-no_columns orders (row ∷ rows) = ap (λ r. row ∷ r) (map-no_columns orders rows)

no_columns :
    (orders : ℕ → List (Text × Text)) (cols : List ColumnInfo) (rows : List Row)
    → is_empty cols ≡ true
    → map (masked_row orders 0 cols) rows ≡ rows
no_columns orders [] rows h = map-no_columns orders rows
no_columns orders (col ∷ cols) rows h = cc

-- Some masks: the loop column by column leaves each row as its description says.
pub apply_mask-eq :
    (orders : ℕ → List (Text × Text)) (c : Config) (r : QueryResult)
    → IsTable r
    → is_empty c.mask_columns ≡ false
    → apply_mask orders c r ≡ some (record r { rows = map (masked_row orders 0 r.columns) r.rows })
unfolding apply_mask
apply_mask-eq orders c r h some_masks = elim (Bool-cases (is_empty r.columns)) [
  | inl e ↦
      rw (some_masks, e)
        (λ i. some (record r { rows = sym (no_columns orders r.columns r.rows e) i }))
  | inr e ↦ rw (some_masks, e, mask_columns-eq orders r h)
]
