-- ===== src/Policy/Redact/Projection.antt =====
-- What the index set of `StripDeniedColumns` of src/internal/policy/policy.go takes out of a row.
use dbexplain.Prelude.{
  false, not, ℕ, suc, ◌<◌, ◌≡◌, refl, ap, ap₂, List, [], ◌∷◌, map, keep, arith, if◌then◌else◌,
}
use dbexplain.Prelude.Text.{Text}
use dbexplain.Query.{ColumnInfo, Row}
use dbexplain.Policy.Redact.{denies, to_strip, strip_idx, unstripped}

-- The cells of a row whose columns no pattern matches, and the cells that have no column.
abbrev pub project {ℓ} : {A : Type ℓ} → List Text → List ColumnInfo → List A → List A
project patterns [] row = row
project patterns (col ∷ cols) [] = []
project patterns (col ∷ cols) (v ∷ row) =
    let rest = project patterns cols row in if denies patterns col then rest else v ∷ rest

-- The names of the columns that some pattern matches.
abbrev pub denied_names : List Text → List ColumnInfo → List Text
denied_names patterns cols = map (λ c. c.name) (keep (denies patterns) cols)

module _ (patterns : List Text) where
  strip_idx-below :
      (i j : ℕ) (cols : List ColumnInfo) → j < i → strip_idx (to_strip patterns i cols) j ≡ false
  unfolding strip_idx to_strip
  strip_idx-below i j [] h = refl
  strip_idx-below i j (col ∷ cols) h = ground (arith, strip_idx-below (suc i) j cols)

  pub names-to_strip :
      (i : ℕ) (cols : List ColumnInfo)
      → map (λ x. x.1) (to_strip patterns i cols) ≡ denied_names patterns cols
  unfolding to_strip
  names-to_strip i [] = refl
  names-to_strip i (col ∷ cols) = ground (arith, names-to_strip (suc i) cols)

module _ {ℓ} {A : Type ℓ} where
  -- An index behind which the loop has passed does not count.
  unstripped-passed :
      (i k : ℕ) (name : Text) (s : List (ℕ × Text)) (row : List A)
      → i < k
      → unstripped ((i, name) ∷ s) k row ≡ unstripped s k row
  unfolding unstripped strip_idx
  unstripped-passed i k name s [] h = refl
  unstripped-passed i k name s (v ∷ row) h = ground (arith, unstripped-passed i (suc k) name s row)

  unstripped-nil : (k : ℕ) (row : List A) → unstripped [] k row ≡ row
  unfolding unstripped strip_idx
  unstripped-nil k [] = refl
  unstripped-nil k (v ∷ row) = ap (λ r. v ∷ r) (unstripped-nil (suc k) row)

  pub unstripped-eq-project :
      (patterns : List Text) (i : ℕ) (cols : List ColumnInfo) (row : List A)
      → unstripped (to_strip patterns i cols) i row ≡ project patterns cols row
  unfolding unstripped strip_idx to_strip
  unstripped-eq-project patterns i [] row = unstripped-nil i row
  unstripped-eq-project patterns i (col ∷ cols) [] = refl
  unstripped-eq-project patterns i (col ∷ cols) (v ∷ row) = ground (
    arith,
    unstripped-eq-project patterns (suc i) cols row,
    unstripped-passed i (suc i) col.name (to_strip patterns (suc i) cols) row,
    strip_idx-below patterns (suc i) i cols,
  )

module _ (patterns : List Text) where
  pub keep-none_denied :
      (cols : List ColumnInfo)
      → denied_names patterns cols ≡ []
      → keep (λ c. not (denies patterns c)) cols ≡ cols
  keep-none_denied [] h = refl
  keep-none_denied (col ∷ cols) h = ground (arith, keep-none_denied cols)

  pub project-none_denied {ℓ} :
      {A : Type ℓ} (cols : List ColumnInfo) (row : List A)
      → denied_names patterns cols ≡ []
      → project patterns cols row ≡ row
  project-none_denied [] row h = refl
  project-none_denied (col ∷ cols) [] h = refl
  project-none_denied (col ∷ cols) (v ∷ row) h = ground (arith, project-none_denied cols row)

  pub map-project-none_denied :
      (cols : List ColumnInfo) (rows : List Row)
      → denied_names patterns cols ≡ []
      → map (project patterns cols) rows ≡ rows
  map-project-none_denied cols [] h = refl
  map-project-none_denied cols (row ∷ rows) h =
      ap₂ ◌∷◌ (project-none_denied cols row h) (map-project-none_denied cols rows h)

  pub project-columns :
      (cols : List ColumnInfo)
      → project patterns cols cols ≡ keep (λ c. not (denies patterns c)) cols
  project-columns [] = refl
  project-columns (col ∷ cols) = ground (arith, project-columns cols)
