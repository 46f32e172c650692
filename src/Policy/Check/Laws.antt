-- ===== src/Policy/Check/Laws.antt =====
-- What `CheckSQL` lets through, and what its table check sees.
use dbexplain.Prelude.{
  ◌≡◌, refl, ◌↔◌, inl, inr, false, List, [], ◌∷◌, Option, none, some, arith, any, All, Option-cases,
}
use dbexplain.Prelude.Text.{Text, contains, to_upper, equal_fold}
use dbexplain.SqlAst.{Stmt}
use dbexplain.Policy.Config.{Config}
use dbexplain.Policy.Sql.{normalize_whitespace}
use dbexplain.Policy.Sql.Blanks.{squeezed, normalize_whitespace-squeezed}
use dbexplain.Policy.Check.{
  Level, Denied, statement, table, column, deny, denied_pattern, denied_name, denied_names,
  check_sql, extract_table_names, extract_column_refs,
}

-- The words of the query, one blank apart, contain none of the patterns up to case. The blanks of a
-- pattern count as they stand.
abbrev pub NoPattern : Text → List Text → Type 0
NoPattern sql patterns = any (λ p. contains (to_upper (squeezed sql)) (to_upper p)) patterns ≡ false

-- No name of the first list equals one of the second up to case.
abbrev pub NoneDenied : List Text → List Text → Type 0
NoneDenied names denied = All (λ t. any (equal_fold t) denied ≡ false) names

denied_pattern-none :
    (n : Text) (ps : List Text)
    → (denied_pattern n ps ≡ none) ↔ (any (λ p. contains (to_upper n) (to_upper p)) ps ≡ false)
unfolding denied_pattern
denied_pattern-none n [] = (λ _. refl, λ _. refl)
denied_pattern-none n (p ∷ ps) = ground (arith, denied_pattern-none n ps)

pub denied_pattern-NoPattern :
    (sql : Text) (ps : List Text)
    → (denied_pattern (normalize_whitespace sql) ps ≡ none) ↔ NoPattern sql ps
denied_pattern-NoPattern sql ps =
    rw (normalize_whitespace-squeezed sql) (denied_pattern-none (squeezed sql) ps)

denied_name-none :
    (t : Text) (ds : List Text) → (denied_name t ds ≡ none) ↔ (any (equal_fold t) ds ≡ false)
unfolding denied_name
denied_name-none t [] = (λ _. refl, λ _. refl)
denied_name-none t (d ∷ ds) = ground (arith, denied_name-none t ds)

denied_names_sound : (ts ds : List Text) → denied_names ts ds ≡ none → NoneDenied ts ds
unfolding denied_names
denied_names_sound [] ds h = tt
denied_names_sound (t ∷ ts) ds h = elim (Option-cases (denied_name t ds)) [
  | inl e ↦ ((denied_name-none t ds).0 e, denied_names_sound ts ds (rw (e, denied_names) at h))
  | inr (d, e) ↦ cc (e, h)
]

denied_names_complete : (ts ds : List Text) → NoneDenied ts ds → denied_names ts ds ≡ none
unfolding denied_names
denied_names_complete [] ds h = refl
denied_names_complete (t ∷ ts) ds h =
    rw ((denied_name-none t ds).1 h.0, denied_names) (denied_names_complete ts ds h.1)

pub deny-none :
    (l : Level) (sql : Text) (o : Option Text) (next : Option Denied)
    → (deny l sql o next ≡ none) ↔ ((o ≡ none) × (next ≡ none))
deny-none l sql none next = (λ h. (refl, h), λ h. h.1)
deny-none l sql (some d) next = (λ h. cc, λ h. cc)

module _ (parse : Text → Option Stmt) (c : Config) (sql : Text) where
  -- The query that `check_sql` lets through is exactly the one whose words, one blank apart, contain
  -- no denied pattern up to case, the blanks of a pattern counted as they stand, and of which no
  -- extracted table name and no extracted column reference equals a denied one up to case.
  pub check_sql-passes_iff : (check_sql parse c sql ≡ none) ↔ (
      NoPattern sql c.deny_statements
      × NoneDenied (extract_table_names parse sql) c.deny_tables
      × NoneDenied (extract_column_refs parse sql) c.deny_columns)
  unfolding check_sql
  check_sql-passes_iff = (
    λ h.
        let (p, h1) = (deny-none statement sql _ _).0 h in
        let (q, h2) = (deny-none table sql _ _).0 h1 in
        let (r, _) = (deny-none column sql _ none).0 h2 in
        (
          (denied_pattern-NoPattern sql c.deny_statements).0 p,
          denied_names_sound _ _ q,
          denied_names_sound _ _ r,
        ),
    λ (p, q, r). (deny-none statement sql _ _).1 (
      (denied_pattern-NoPattern sql c.deny_statements).1 p,
      (deny-none table sql _ _).1 (
        denied_names_complete _ _ q,
        (deny-none column sql _ _).1 (denied_names_complete _ _ r, refl),
      ),
    ),
  )
