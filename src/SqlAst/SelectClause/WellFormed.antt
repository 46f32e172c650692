-- ===== src/SqlAst/SelectClause/WellFormed.antt =====
-- The statements that `parseSingleSelect` of src/internal/sqlast/parser.go gives, and that it ends,
-- given an expression parser that does.
use dbexplain.Prelude.{
  ℕ, zero, suc, ◌+◌, ◌≤◌, ◌<◌, ◌==◌, List, [], All, length, is_empty, arith, length-drop-le,
}
use dbexplain.Prelude.Text.{Text}
use dbexplain.SqlAst.{Expr, SelectStmt, absent, select}
use dbexplain.SqlAst.TokenType
use dbexplain.SqlAst.Lexer.{Token}
use dbexplain.SqlAst.Result.{ok, Ensures, Ensures-bind, Ensures-if}
use dbexplain.SqlAst.Parsing.{Parser, peek, expect, optional, comma_list, skip_semicolons}
use dbexplain.SqlAst.Parsing.Consumes.{
  Any, Gives, Gives-weaken, optional-Gives, comma_list-Gives, expect-Gives, semicolons-Gives,
}
use dbexplain.SqlAst.Clause.{parse_table_ref, by_columns, by_order, parse_number}
use dbexplain.SqlAst.Clause.Consumes.{
  IsInt, IsDirection, parse_table_ref-Gives, by_columns-Gives, by_order-Gives, parse_number-Gives,
}
use dbexplain.SqlAst.SelectClause.{
  parse_distinct_on, parse_alias, join_type, select_expr, parse_select_list, parse_join,
  join_rounds, parse_joins, parse_present, parse_single_select,
}
use dbexplain.SqlAst.SelectClause.Consumes.{
  distinct-Gives, alias-Gives, join_type_le, join_type-known, IsJoinType, IsKnown, AreJoins,
  join_clauses-AreJoins, AreColumns, select_columns-AreColumns,
}

-- A SELECT with a column at least, joins of known kinds that have an ON condition, directions that
-- are ASC or DESC, and a limit and an offset that are ints.
abbrev pub IsWellFormed : SelectStmt → Type 0
IsWellFormed
      (select columns from alias joins filter groups orders limit offset having distinct_on) =
    AreColumns columns × (AreJoins joins × (All IsDirection orders × (IsInt limit × IsInt offset)))

table_clause : (n : ℕ) → Gives Any 0 n (optional TokenType.from parse_table_ref ([], []))
table_clause n =
    optional-Gives Any n TokenType.from parse_table_ref ([], [])
      (Gives-weaken Any Any 1 0 n parse_table_ref (omega arith) (λ _ _. tt)
        (parse_table_ref-Gives n))
      tt

group_clause : (n : ℕ) → Gives Any 0 n (optional TokenType.group by_columns [])
group_clause n =
    optional-Gives Any n TokenType.group by_columns []
      (Gives-weaken Any Any 2 0 n by_columns (omega arith) (λ _ _. tt) (by_columns-Gives n)) tt

sorting_clause : (n : ℕ) → Gives (All IsDirection) 0 n (optional TokenType.order by_order [])
sorting_clause n =
    optional-Gives (All IsDirection) n TokenType.order by_order []
      (Gives-weaken (All IsDirection) (All IsDirection) 2 0 n by_order (omega arith) (λ _ h. h)
        (by_order-Gives n))
      tt

number_clause : (n type : ℕ) → Gives IsInt 0 n (optional type parse_number 0)
number_clause n type =
    optional-Gives IsInt n type parse_number 0
      (Gives-weaken IsInt IsInt 1 0 n parse_number (omega arith) (λ _ h. h) (parse_number-Gives n))
      (omega arith)

module _ (expr : Parser Expr) (n : ℕ) (e-Gives : Gives Any 1 n expr) where
  select_expr-Gives : Gives Any 1 n (select_expr expr)
  unfolding select_expr
  select_expr-Gives ts l = Ensures-bind _ _ (expr ts) _ (e-Gives ts l) λ (e, r0) (s0, _).
      Ensures-bind _ _ (parse_alias r0) _ (alias-Gives n r0 (omega arith))
        λ (alias, r1) (s1, _). (omega arith, tt)

  select_list-Gives : Gives AreColumns 0 n (parse_select_list expr)
  unfolding parse_select_list
  select_list-Gives ts l =
      Ensures-if _ (peek ts == TokenType.star) _ _ (λ _. (omega (arith, length-drop-le 1 ts), tt))
        (λ _.
          Ensures-bind _ _ (comma_list (select_expr expr) ts) _
            (comma_list-Gives Any n (select_expr expr) select_expr-Gives ts l)
            λ (list, r0) (s0, h). (omega arith, select_columns-AreColumns list h))

  join-Gives : (type : Text) → IsJoinType type → Gives IsKnown 1 n (parse_join expr type)
  unfolding parse_join
  join-Gives type known ts l =
      Ensures-bind _ _ (expect TokenType.join ts) _ (expect-Gives n TokenType.join ts l)
        λ (_, r0) (s0, _).
          Ensures-bind _ _ (parse_table_ref r0) _ (parse_table_ref-Gives n r0 (omega arith))
            λ (name, r1) (s1, _).
              Ensures-bind _ _ (expect TokenType.on r1) _
                (expect-Gives n TokenType.on r1 (omega arith))
                λ (_, r2) (s2, _).
                  Ensures-bind _ _ (expr r2) _ (e-Gives r2 (omega arith))
                    λ (on, r3) (s3, _). (omega arith, known)

  join_rounds-Gives :
      (m : ℕ) (ts : List Token)
      → length ts ≤ n
      → length ts < m
      → Ensures (λ r. (0 + length r.1 ≤ length ts) × All IsKnown r.0) (join_rounds expr m ts)
  unfolding join_rounds
  join_rounds-Gives zero ts l lt = absurd (omega arith)
  join_rounds-Gives (suc m) ts l lt =
      Ensures-if _ (is_empty (join_type ts).0) (ok ([], ts)) _ (λ _. (omega arith, tt))
        λ more.
          Ensures-bind _ _ (parse_join expr (join_type ts).0 (join_type ts).1) _
            (join-Gives (join_type ts).0 (join_type-known ts more) (join_type ts).1
              (omega (arith, join_type_le ts)))
            λ (j, r0) (s0, known).
              Ensures-bind _ _ (join_rounds expr m r0) _
                (join_rounds-Gives m r0 (omega (arith, join_type_le ts))
                  (omega (arith, join_type_le ts)))
                λ (js, r1) (s1, h). (omega (arith, join_type_le ts), (known, h))

  joins-Gives : Gives (All IsKnown) 0 n (parse_joins expr)
  unfolding parse_joins
  joins-Gives ts l = join_rounds-Gives (suc (length ts)) ts l (omega arith)

  present-Gives : (type : ℕ) → Gives Any 0 n (optional type (parse_present expr) absent)
  unfolding parse_present
  present-Gives type =
      optional-Gives Any n type (parse_present expr) absent
        (λ ts l. Ensures-bind _ _ (expr ts) _ (e-Gives ts l) λ (e, r0) (s0, _). (omega arith, tt))
        tt

  pub single_select-Gives : Gives IsWellFormed 1 (suc n) (parse_single_select expr)
  unfolding parse_single_select
  single_select-Gives ts l =
      Ensures-bind _ _ (expect TokenType.select ts) _ (expect-Gives (suc n) TokenType.select ts l)
        λ (_, r0) (s0, _).
          Ensures-bind _ _ (parse_distinct_on r0) _ (distinct-Gives n r0 (omega arith))
            λ (distinct_on, r1) (s1, _).
              Ensures-bind _ _ (parse_select_list expr r1) _ (select_list-Gives r1 (omega arith))
                λ (columns, r2) (s2, c).
                  let s3 = (semicolons-Gives n r2 (omega arith)).0 in
                  Ensures-bind _ _
                    (optional TokenType.from parse_table_ref ([], []) (skip_semicolons r2)) _
                    (table_clause n (skip_semicolons r2) (omega arith))
                    λ (from, r4) (s4, _).
                      Ensures-bind _ _ (parse_joins expr r4) _ (joins-Gives r4 (omega arith))
                        λ (joins, r5) (s5, j).
                          Ensures-bind _ _
                            (optional TokenType.where_ (parse_present expr) absent r5) _
                            (present-Gives TokenType.where_ r5 (omega arith))
                            λ (filter, r6) (s6, _).
                              Ensures-bind _ _ (optional TokenType.group by_columns [] r6) _
                                (group_clause n r6 (omega arith))
                                λ (groups, r7) (s7, _).
                                  Ensures-bind _ _
                                    (optional TokenType.having (parse_present expr) absent r7) _
                                    (present-Gives TokenType.having r7 (omega arith))
                                    λ (having, r8) (s8, _).
                                      Ensures-bind _ _ (optional TokenType.order by_order [] r8) _
                                        (sorting_clause n r8 (omega arith))
                                        λ (orders, r9) (s9, o).
                                          Ensures-bind _ _
                                            (optional TokenType.limit parse_number 0 r9) _
                                            (number_clause n TokenType.limit r9 (omega arith))
                                            λ (limit, r10) (s10, li).
                                              Ensures-bind _ _
                                                (optional TokenType.offset parse_number 0 r10) _
                                                (number_clause n TokenType.offset r10 (omega arith))
                                                λ (offset, r11) (s11, of). (
                                                  omega arith,
                                                  (
                                                    c,
                                                    (join_clauses-AreJoins joins j, (o, (li, of))),
                                                  ),
                                                )
