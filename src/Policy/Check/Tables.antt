-- ===== src/Policy/Check/Tables.antt =====
-- Which tables of a parsed statement the check sees.
use dbexplain.Prelude.{
  ◌≡◌, ◌↔◌, refl, sym, ◌∙◌, inl, inr, Bool, true, false, ◌&&◌, ◌||◌, List, [], ◌∷◌, ◌++◌, Option,
  none, some, is_empty, if◌then◌else◌, arith, any, Bool-cases, Option-cases,
}
use dbexplain.Prelude.Text.{Text, equal_fold, one_of, cut, text_eq, text_eq_iff}
use dbexplain.SqlAst.{Stmt, SelectStmt, JoinClauses, select, no_joins, join, select_stmt}
use dbexplain.Policy.Config.{Config}
use dbexplain.Policy.Sql.{strip_sql_comments}
use dbexplain.Policy.Extract.{add_new, add_table, add_joins, select_tables}
use dbexplain.Policy.Check.{extract_table_names, extract_column_refs, check_sql}
use dbexplain.Policy.Check.Laws.{NoPattern, NoneDenied, check_sql-passes_iff}

-- `t` is the name, or the part of the name before or behind its first dot.
abbrev pub names : Text → Text → Bool
names name t = (text_eq t name && (if is_empty t then false else true)) || elim (cut name b'.') [
  | none ↦ false
  | some (schema, table) ↦ text_eq t schema || text_eq t table
]

abbrev pub joins_name : JoinClauses → Text → Bool
joins_name no_joins t = false
joins_name (join table alias on kind js) t = names table t || joins_name js t

-- The FROM clause or a JOIN clause names `t`.
abbrev pub mentions : SelectStmt → Text → Bool
mentions (select _ from _ joins _ _ _ _ _ _ _) t = names from t || joins_name joins t

one_of-append : (t u : Text) (l : List Text) → one_of t (l ++ u ∷ []) ≡ (one_of t l || text_eq t u)
one_of-append t u [] = ground arith
one_of-append t u (x ∷ l) = ground (arith, one_of-append t u l)

one_of-old :
    (t u : Text) (l : List Text) → one_of u l ≡ true → one_of t l ≡ (one_of t l || text_eq t u)
one_of-old t u l e = elim (Bool-cases (text_eq t u)) [
  | inl q ↦ rw ((text_eq_iff t u).0 q) (rw e)
  | inr n ↦ rw n (ground arith)
]

-- A name stands in the list afterwards if it stood there or is the new one.
one_of-add_new : (t u : Text) (l : List Text) → one_of t (add_new u l) ≡ (one_of t l || text_eq t u)
unfolding add_new
one_of-add_new t u l = elim (Bool-cases (one_of u l)) [
  | inl e ↦ rw e (one_of-old t u l e)
  | inr e ↦ rw e (one_of-append t u l)
]

one_of-add_name :
    (t name : Text) (l : List Text)
    → one_of t (if is_empty name then l else add_new name l)
      ≡ (one_of t l || (text_eq t name && (if is_empty t then false else true)))
one_of-add_name t [] l = elim (Bool-cases (text_eq t [])) [
  | inl q ↦ rw ((text_eq_iff t []).0 q) (ground arith)
  | inr n ↦ rw n (ground arith)
]
one_of-add_name [] (c ∷ name) l = one_of-add_new [] (c ∷ name) l ∙ ground arith
one_of-add_name (d ∷ t) (c ∷ name) l = one_of-add_new (d ∷ t) (c ∷ name) l ∙ ground arith

one_of-add_table :
    (t name : Text) (l : List Text) → one_of t (add_table name l) ≡ (one_of t l || names name t)
unfolding add_table
one_of-add_table t name l = elim (Option-cases (cut name b'.')) [
  | inl e ↦ rw (e, add_table) (ground (arith, one_of-add_name t name l))
  | inr ((schema, table), e) ↦
      rw (e, add_table)
        (ground (
          arith,
          one_of-add_name t name l,
          one_of-add_new t table (if is_empty name then l else add_new name l),
          one_of-add_new t schema (add_new table (if is_empty name then l else add_new name l)),
        ))
]

one_of-add_joins :
    (t : Text) (js : JoinClauses) (l : List Text)
    → one_of t (add_joins js l) ≡ (one_of t l || joins_name js t)
unfolding add_joins
one_of-add_joins t no_joins l = ground arith
one_of-add_joins t (join table alias on kind js) l =
    ground (arith, one_of-add_joins t js (add_table table l), one_of-add_table t table l)

-- A name is extracted from a statement exactly if its FROM clause or one of its JOIN clauses names
-- it, as a whole or as a part of a qualified name: subqueries in its conditions do not count.
pub select_tables_iff : (t : Text) (s : SelectStmt) → one_of t (select_tables s) ≡ mentions s t
unfolding select_tables
select_tables_iff t (select cols from alias joins cond group order limit offset having on) =
    one_of-add_joins t joins (add_table from []) ∙ ground (arith, one_of-add_table t from [])

None-one_of :
    (t : Text) (names denied : List Text)
    → NoneDenied names denied
    → one_of t names ≡ true
    → any (equal_fold t) denied ≡ false
None-one_of t [] denied h o = cc
None-one_of t (n ∷ ns) denied h o = elim (Bool-cases (text_eq t n)) [
  | inl q ↦ rw ((text_eq_iff t n).0 q) h.0
  | inr q ↦ None-one_of t ns denied h.1 (rw q at o)
]

extracted :
    (parse : Text → Option Stmt) (sql t : Text) (s : SelectStmt)
    → parse (strip_sql_comments sql) ≡ some (select_stmt s)
    → mentions s t ≡ true
    → one_of t (extract_table_names parse sql) ≡ true
unfolding extract_table_names
extracted parse sql t s p m = rw (p, extract_table_names) (select_tables_iff t s ∙ m)

one_of-NoneDenied :
    (names denied : List Text)
    → ((t : Text) → one_of t names ≡ true → any (equal_fold t) denied ≡ false)
    → NoneDenied names denied
one_of-NoneDenied [] denied h = tt
one_of-NoneDenied (n ∷ ns) denied h =
    (h n (rw ((text_eq_iff n n).1 refl)), one_of-NoneDenied ns denied λ t o. h t (ground arith))

not_extracted :
    (parse : Text → Option Stmt) (sql t : Text) (s : SelectStmt)
    → parse (strip_sql_comments sql) ≡ some (select_stmt s)
    → one_of t (extract_table_names parse sql) ≡ true
    → mentions s t ≡ true
unfolding extract_table_names
not_extracted parse sql t s p o = sym (select_tables_iff t s) ∙ rw (p, extract_table_names) at o

-- A query that reads as a SELECT once its comments are taken out is let through exactly if its words,
-- one blank apart, contain no denied pattern up to case, no name of its FROM clause or of a JOIN
-- clause, as a whole or as a part of a qualified name, equals a denied table up to case, and no
-- extracted column reference a denied column.
pub check_sql-select_iff :
    (parse : Text → Option Stmt) (c : Config) (sql : Text) (s : SelectStmt)
    → parse (strip_sql_comments sql) ≡ some (select_stmt s)
    → (check_sql parse c sql ≡ none) ↔ (
        NoPattern sql c.deny_statements
        × ((t : Text) → mentions s t ≡ true → any (equal_fold t) c.deny_tables ≡ false)
        × NoneDenied (extract_column_refs parse sql) c.deny_columns)
check_sql-select_iff parse c sql s p =
    let names = extract_table_names parse sql in
    (
      λ pass.
          let (pattern, free, columns) = (check_sql-passes_iff parse c sql).0 pass in
          (
            pattern,
            λ t m. None-one_of t names c.deny_tables free (extracted parse sql t s p m),
            columns,
          ),
      λ (pattern, free, columns). (check_sql-passes_iff parse c sql).1 (
        pattern,
        one_of-NoneDenied names c.deny_tables λ t o. free t (not_extracted parse sql t s p o),
        columns,
      ),
    )
