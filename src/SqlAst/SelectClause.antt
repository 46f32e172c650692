-- ===== src/SqlAst/SelectClause.antt =====
-- `parseSingleSelect` and `parseSelectList` of src/internal/sqlast/parser.go, with the expressions as a
-- parameter: `Parser` closes the recursion.
pub mod Consumes
pub mod WellFormed
use dbexplain.Prelude.{
  ℕ, zero, suc, ◌==◌, ◌&&◌, ◌||◌, Bool, true, false, List, [], ◌∷◌, drop, length, is_empty,
  if◌then◌else◌,
}
use dbexplain.Prelude.Text.{Text, codes}
use dbexplain.SqlAst.{
  Expr, SelectExprs, JoinClauses, MaybeExpr, SelectStmt, ColumnRef, column_ref, no_columns, column,
  no_joins, join, absent, present, select,
}
use dbexplain.SqlAst.TokenType
use dbexplain.SqlAst.Lexer.{Token}
use dbexplain.SqlAst.Result.{Result, ok, failed, out_of_fuel, bind}
use dbexplain.SqlAst.Parsing.{
  Parser, pure, ◌>>=◌, ◌>>◌, peek, expect, accept, optional, comma_list, semicolons,
  skip_semicolons,
}
use dbexplain.SqlAst.Clause.{parse_column_ref, parse_table_ref, by_columns, by_order, parse_number}

-- Behind DISTINCT: ON and a list of columns, or nothing.
unfoldable pub on_columns : Parser (List ColumnRef)
unfolding expect comma_list parse_column_ref
on_columns = do
  expect TokenType.lparen
  cols ← comma_list parse_column_ref
  expect TokenType.rparen
  pure cols

unfoldable pub parse_distinct_on : Parser (List ColumnRef)
unfolding optional on_columns
parse_distinct_on = optional TokenType.distinct (optional TokenType.on on_columns []) []

-- The token behind an identifier with which that is an alias.
abbrev ends_alias : ℕ → Bool
ends_alias type =
    type == TokenType.comma
    || (type == TokenType.from
        || (type == TokenType.where_
            || (type == TokenType.group
                || (type == TokenType.order
                    || (type == TokenType.limit
                        || (type == TokenType.join
                            || (type == TokenType.eof || type == TokenType.semicolon)))))))

unfoldable pub implicit_alias : Parser Text
implicit_alias [] = ok ([], [])
implicit_alias (t ∷ ts) =
    if t.type == TokenType.ident && ends_alias (peek ts) then ok (t.value, ts) else ok ([], t ∷ ts)

unfoldable pub parse_alias : Parser Text
unfolding expect implicit_alias
parse_alias ts =
    if peek ts == TokenType.as_ then expect TokenType.ident (drop 1 ts) else implicit_alias ts

abbrev pub select_columns : List (Expr × Text) → SelectExprs
select_columns [] = no_columns
select_columns ((e, alias) ∷ l) = column e alias (select_columns l)

-- The kind of the join that the next tokens begin, and what is left up to JOIN; no kind where none
-- begins.
unfoldable pub join_type : List Token → Text × List Token
unfolding accept
join_type ts =
    if peek ts == TokenType.left
    then (codes "LEFT", skip_outer (drop 1 ts))
    else if peek ts == TokenType.right
    then (codes "RIGHT", skip_outer (drop 1 ts))
    else if peek ts == TokenType.join
    then (codes "INNER", ts)
    else ([], ts)
  where
    skip_outer : List Token → List Token
    skip_outer us = if peek us == TokenType.outer then drop 1 us else us

-- One join, from the JOIN on.
pub record Joined : Type 0 where
  pub table : Text
  pub alias : Text
  pub on : Expr
  pub type : Text

abbrev pub join_clauses : List Joined → JoinClauses
join_clauses [] = no_joins
join_clauses (j ∷ js) = join j.table j.alias (present j.on) j.type (join_clauses js)

abbrev star_column : SelectExprs
star_column = column (column_ref (record { table = []; col = codes "*" })) [] no_columns

module _ (expr : Parser Expr) where
  unfoldable pub select_expr : Parser (Expr × Text)
  unfolding parse_alias
  select_expr = do e ← expr; alias ← parse_alias; pure (e, alias)

  unfoldable pub parse_select_list : Parser SelectExprs
  unfolding comma_list select_expr
  parse_select_list ts =
      if peek ts == TokenType.star
      then ok (star_column, drop 1 ts)
      else (comma_list select_expr >>= λ l. pure (select_columns l)) ts

  unfoldable pub parse_join : Text → Parser Joined
  unfolding expect parse_table_ref
  parse_join type = do
    expect TokenType.join
    name ← parse_table_ref
    expect TokenType.on
    on ← expr
    pure (record { table = name.0; alias = name.1; on = on; type = type })

  -- The loop over the joins. Each round takes a token at least.
  unfoldable pub join_rounds : ℕ → Parser (List Joined)
  unfolding join_type parse_join
  join_rounds zero ts = out_of_fuel
  join_rounds (suc n) ts =
      let more =
        bind (parse_join (join_type ts).0 (join_type ts).1)
          λ (j, rest). bind (join_rounds n rest) λ (js, rest'). ok (j ∷ js, rest') in
      if is_empty (join_type ts).0 then ok ([], ts) else more

  unfoldable pub parse_joins : Parser (List Joined)
  unfolding join_rounds
  parse_joins ts = join_rounds (suc (length ts)) ts

  unfoldable pub parse_present : Parser MaybeExpr
  parse_present = expr >>= λ e. pure (present e)

  unfoldable pub parse_single_select : Parser SelectStmt
  unfolding expect parse_distinct_on parse_select_list optional parse_table_ref parse_joins
      parse_present by_columns by_order parse_number skip_semicolons
  parse_single_select = do
    expect TokenType.select
    distinct_on ← parse_distinct_on
    columns ← parse_select_list
    semicolons
    from ← optional TokenType.from parse_table_ref ([], [])
    joins ← parse_joins
    filter ← optional TokenType.where_ parse_present absent
    groups ← optional TokenType.group by_columns []
    having ← optional TokenType.having parse_present absent
    orders ← optional TokenType.order by_order []
    limit ← optional TokenType.limit parse_number 0
    offset ← optional TokenType.offset parse_number 0
    pure (
        select columns from.0 from.1 (join_clauses joins) filter groups orders limit offset having
          distinct_on)
