-- ===== src/Policy/Redact/Laws.antt =====
-- What `StripDeniedColumns` does to a table, against a description of it column by column.
use mathlib.Core.Path.{fun_ext}
use dbexplain.Prelude.{
  is_empty→nil, ◌||◌, true, false, Bool-cases, inl, inr, not, length, any, All, Bool, Option, none,
  some, if-true, if-false, ltb, suc, ◌≤◌, ◌≡◌, ◌≢◌, refl, ap, ap₂, sym, ◌∙◌, List, [], ◌∷◌, map,
  keep, arith, is_empty, if◌then◌else◌,
}
use dbexplain.Prelude.Text.{Text}
use dbexplain.Query.{ColumnInfo, QueryResult, Row}
use dbexplain.Policy.Config.{Config}
use dbexplain.Policy.Redact.{denies, to_strip, too_short, unstripped, strip_denied_columns}
use dbexplain.Policy.Redact.Projection.{
  project, denied_names, names-to_strip, unstripped-eq-project, keep-none_denied,
  map-project-none_denied, project-columns,
}

-- The table with every denied column taken out, and the names of those columns noted.
abbrev pub redacted : List Text → QueryResult → QueryResult
redacted patterns r = record r {
  columns = keep (λ c. not (denies patterns c)) r.columns;
  rows = map (project patterns r.columns) r.rows;
  stripped_columns =
      if is_empty (denied_names patterns r.columns)
      then r.stripped_columns
      else denied_names patterns r.columns;
}

redacted-none :
    (patterns : List Text) (r : QueryResult)
    → denied_names patterns r.columns ≡ []
    → redacted patterns r ≡ r
redacted-none patterns r h = λ i. record r {
  columns = keep-none_denied patterns r.columns h i;
  rows = map-project-none_denied patterns r.columns r.rows h i;
  stripped_columns = no_names i;
}
  where
    no_names :
        (if is_empty (denied_names patterns r.columns)
          then r.stripped_columns
          else denied_names patterns r.columns)
        ≡ r.stripped_columns
    no_names = rw h

denied_names-nil : (cols : List ColumnInfo) → denied_names [] cols ≡ []
denied_names-nil [] = refl
denied_names-nil (col ∷ cols) = denied_names-nil cols

names-nil :
    (patterns : List Text) (cols : List ColumnInfo)
    → is_empty (to_strip patterns 0 cols) ≡ true
    → denied_names patterns cols ≡ []
names-nil patterns cols h =
    sym (names-to_strip patterns 0 cols) ∙ ap (map (λ x. x.1)) (is_empty→nil _ h)

is_empty-map {ℓ κ} :
    {A : Type ℓ} {B : Type κ} (f : A → B) (l : List A) → is_empty (map f l) ≡ is_empty l
is_empty-map f [] = refl
is_empty-map f (x ∷ l) = refl

-- the branch that rewrites the table
strip-some :
    (patterns : List Text) (r : QueryResult)
    → is_empty (to_strip patterns 0 r.columns) ≡ false
    → record r {
      columns = unstripped (to_strip patterns 0 r.columns) 0 r.columns;
      rows = map (unstripped (to_strip patterns 0 r.columns) 0) r.rows;
      stripped_columns = map (λ x. x.1) (to_strip patterns 0 r.columns);
    }
      ≡ redacted patterns r
strip-some patterns r h = λ i. record r {
  columns =
      (unstripped-eq-project patterns 0 r.columns r.columns ∙ project-columns patterns r.columns) i;
  rows = map (fun_ext (λ row. unstripped-eq-project patterns 0 r.columns row) i) r.rows;
  stripped_columns = noted i;
}
  where
    noted : map (λ x. x.1) (to_strip patterns 0 r.columns) ≡ (
        if is_empty (denied_names patterns r.columns)
        then r.stripped_columns
        else denied_names patterns r.columns)
    noted =
        rw (← names-to_strip patterns 0 r.columns)
          (rw (is_empty-map (λ x. x.1) (to_strip patterns 0 r.columns)) (rw h))

guard-nil :
    (patterns : List Text) (cols : List ColumnInfo)
    → is_empty patterns || is_empty cols ≡ true
    → denied_names patterns cols ≡ []
guard-nil [] cols h = denied_names-nil cols
guard-nil (p ∷ patterns) [] h = refl
guard-nil (p ∷ patterns) (col ∷ cols) h = cc

length-map {ℓ κ} : {A : Type ℓ} {B : Type κ} (f : A → B) (l : List A) → length (map f l) ≡ length l
length-map f [] = refl
length-map f (x ∷ l) = ap suc (length-map f l)

length-to_strip :
    (patterns : List Text) (cols : List ColumnInfo)
    → length (to_strip patterns 0 cols) ≡ length (denied_names patterns cols)
length-to_strip patterns cols =
    sym (length-map (λ x. x.1) (to_strip patterns 0 cols))
    ∙ ap length (names-to_strip patterns 0 cols)

-- The row has fewer cells than there are denied columns.
abbrev pub shorter : List Text → List ColumnInfo → Row → Bool
shorter patterns cols row = ltb (length row) (length (denied_names patterns cols))

-- The table without its denied columns, or the panic on a row with fewer cells than there are.
abbrev pub redacted? : List Text → QueryResult → Option QueryResult
redacted? patterns r =
    if any (shorter patterns r.columns) r.rows then none else some (redacted patterns r)

any-shorter :
    (patterns : List Text) (cols : List ColumnInfo) (rows : List Row)
    → any (too_short (to_strip patterns 0 cols)) rows ≡ any (shorter patterns cols) rows
unfolding too_short
any-shorter patterns cols [] = refl
any-shorter patterns cols (row ∷ rows) =
    ap₂ ◌||◌ (ap (ltb (length row)) (length-to_strip patterns cols))
      (any-shorter patterns cols rows)

any-none_shorter :
    (patterns : List Text) (cols : List ColumnInfo) (rows : List Row)
    → denied_names patterns cols ≡ []
    → any (shorter patterns cols) rows ≡ false
any-none_shorter patterns cols [] h = refl
any-none_shorter patterns cols (row ∷ rows) h =
    ground (arith, any-none_shorter patterns cols rows, ap length h)

redacted?-none_denied :
    (patterns : List Text) (r : QueryResult)
    → denied_names patterns r.columns ≡ []
    → redacted? patterns r ≡ some r
redacted?-none_denied patterns r h =
    rw (any-none_shorter patterns r.columns r.rows h) (ap some (redacted-none patterns r h))

redacted?-found :
    (patterns : List Text) (r s : QueryResult)
    → s ≡ redacted patterns r
    → (if any (too_short (to_strip patterns 0 r.columns)) r.rows then none else some s)
      ≡ redacted? patterns r
redacted?-found patterns r s h =
    ap₂ (λ b x. if b then none else some x) (any-shorter patterns r.columns r.rows) h

-- Whatever the configuration and the table: the code panics exactly if some row has fewer cells than
-- there are denied columns, and otherwise the indices that it collects take out exactly the denied
-- columns. The columns that remain, every row and the noted names are those of the description
-- column by column, on each early return too.
pub strip_denied_columns-eq-redacted :
    (c : Config) (r : QueryResult) → strip_denied_columns c r ≡ redacted? c.deny_columns r
unfolding strip_denied_columns
strip_denied_columns-eq-redacted c r =
    elim (Bool-cases (is_empty c.deny_columns || is_empty r.columns)) [
      | inl early ↦
          if-true (is_empty c.deny_columns || is_empty r.columns) _ _ early
          ∙ sym (redacted?-none_denied c.deny_columns r (guard-nil c.deny_columns r.columns early))
      | inr go ↦
          if-false (is_empty c.deny_columns || is_empty r.columns) _ _ go
          ∙ elim (Bool-cases (is_empty (to_strip c.deny_columns 0 r.columns))) [
            | inl nothing ↦
                if-true (is_empty (to_strip c.deny_columns 0 r.columns)) _ _ nothing
                ∙ sym (
                    redacted?-none_denied c.deny_columns r
                      (names-nil c.deny_columns r.columns nothing))
            | inr found ↦
                if-false (is_empty (to_strip c.deny_columns 0 r.columns)) _ _ found
                ∙ redacted?-found c.deny_columns r _ (strip-some c.deny_columns r found)
          ]
    ]

length-denied_names :
    (patterns : List Text) (cols : List ColumnInfo)
    → length (denied_names patterns cols) ≤ length cols
length-denied_names patterns [] = omega arith
length-denied_names patterns (col ∷ cols) = ground (arith, length-denied_names patterns cols)

any-shorter_table :
    (patterns : List Text) (cols : List ColumnInfo) (rows : List Row)
    → All (λ row. length row ≡ length cols) rows
    → any (shorter patterns cols) rows ≡ false
any-shorter_table patterns cols [] h = refl
any-shorter_table patterns cols (row ∷ rows) h =
    ground (arith, length-denied_names patterns cols, any-shorter_table patterns cols rows, h)

-- A table with one cell for each column in each row does not panic.
pub strip_denied_columns-table :
    (c : Config) (r : QueryResult)
    → All (λ row. length row ≡ length r.columns) r.rows
    → strip_denied_columns c r ≡ some (redacted c.deny_columns r)
strip_denied_columns-table c r h =
    strip_denied_columns-eq-redacted c r
    ∙ rw (any-shorter_table c.deny_columns r.columns r.rows h) refl

pub redacted?-some :
    (patterns : List Text) (r s : QueryResult)
    → redacted? patterns r ≡ some s
    → s ≡ redacted patterns r
redacted?-some patterns r s h = elim (Bool-cases (any (shorter patterns r.columns) r.rows)) [
  | inl e ↦ absurd (none-ne-some s (sym (if-true _ none (some (redacted patterns r)) e) ∙ h))
  | inr e ↦ some-injective _ _ (sym (sym (if-false _ none (some (redacted patterns r)) e) ∙ h))
]
  where
    none-ne-some : (x : QueryResult) → none ≢ some x
    none-ne-some x e = cc

    some-injective : (x y : QueryResult) → some x ≡ some y → x ≡ y
    some-injective x y e = cc

module _ (patterns : List Text) where
  pub All-not-denied :
      (cols : List ColumnInfo)
      → All (λ col. denies patterns col ≡ false) (keep (λ c. not (denies patterns c)) cols)
  All-not-denied [] = tt
  All-not-denied (col ∷ cols) = ground (arith, All-not-denied cols)

  length-project {ℓ} :
      {A : Type ℓ} (cols : List ColumnInfo) (row : List A)
      → length row ≡ length cols
      → length (project patterns cols row) ≡ length (keep (λ c. not (denies patterns c)) cols)
  length-project [] row h = h
  length-project (col ∷ cols) [] h = absurd (omega arith)
  length-project (col ∷ cols) (v ∷ row) h = ground (arith, length-project cols row)

  All-project :
      (cols : List ColumnInfo) (rows : List Row)
      → All (λ row. length row ≡ length cols) rows
      → All
          (λ row. length row ≡ length (keep (λ c. not (denies patterns c)) cols))
          (map (project patterns cols) rows)
  All-project cols [] h = tt
  All-project cols (row ∷ rows) h = (length-project cols row h.0, All-project cols rows h.1)

-- On a table with one cell for each column in each row, the code does not panic and no denied column
-- reaches the output: none of the columns that remain matches a denied pattern, and each row keeps
-- one cell for each column that remains.
pub strip_denied_columns_safe :
    (c : Config) (r : QueryResult)
    → All (λ row. length row ≡ length r.columns) r.rows
    → (r' : QueryResult) × (strip_denied_columns c r ≡ some r')
      × All (λ col. denies c.deny_columns col ≡ false) r'.columns
      × All (λ row. length row ≡ length r'.columns) r'.rows
strip_denied_columns_safe c r h = (
  redacted c.deny_columns r,
  strip_denied_columns-table c r h,
  All-not-denied c.deny_columns r.columns,
  All-project c.deny_columns r.columns r.rows h,
)
