-- ===== src/SqlAst/Expression.antt =====
-- The expression levels of src/internal/sqlast/parser.go. What a primary expression and a subquery are
-- is a parameter here: `Parser` below closes the recursion.
pub mod Consumes
pub mod Primary
pub mod Grammar
pub mod Rounds
pub mod Operators
pub mod Levels
use dbexplain.Prelude.{
  ℕ, zero, suc, ◌==◌, ◌&&◌, ◌||◌, Bool, true, false, List, [], ◌∷◌, Option, none, some, drop, any,
  map, if◌then◌else◌,
}
use dbexplain.Prelude.Text.{Text, codes, to_upper, upper_byte}
use dbexplain.SqlAst.{
  Expr, Exprs, SelectStmt, WindowDef, column_ref, number_lit, string_lit, binary_expr, unary_expr,
  func_call, between_expr, subquery_expr, nil, cons,
}
use dbexplain.SqlAst.TokenType
use dbexplain.SqlAst.Lexer.{Token}
use dbexplain.SqlAst.Result.{Result, ok, failed, out_of_fuel, bind}
use dbexplain.SqlAst.Parsing.{
  Parser, pure, ◌>>=◌, ◌>>◌, peek, expect, accept, optional, comma_list, operators,
}
use dbexplain.SqlAst.Clause.{column_name, parse_over_clause}

-- The operators of each level.
unfoldable pub logical_op : ℕ → Option Text
logical_op type =
    if type == TokenType.and
    then some (codes "AND")
    else if type == TokenType.or
    then some (codes "OR")
    else none

unfoldable pub add_sub_op : ℕ → Option Text
add_sub_op type =
    if type == TokenType.plus
    then some (codes "+")
    else if type == TokenType.minus
    then some (codes "-")
    else none

unfoldable pub mul_div_op : ℕ → Option Text
mul_div_op type =
    if type == TokenType.star
    then some (codes "*")
    else if type == TokenType.slash
    then some (codes "/")
    else none

unfoldable pub comparison_op : ℕ → Option Text
comparison_op type =
    if type == TokenType.eq
    then some (codes "=")
    else if type == TokenType.ne
    then some (codes "!=")
    else if type == TokenType.lt
    then some (codes "<")
    else if type == TokenType.gt
    then some (codes ">")
    else if type == TokenType.le
    then some (codes "<=")
    else if type == TokenType.ge
    then some (codes ">=")
    else if type == TokenType.like
    then some (codes "LIKE")
    else none

-- `listToExpr`
abbrev or_all : Expr → List Expr → Expr
or_all e [] = e
or_all e (f ∷ l) = or_all (binary_expr e (codes "OR") f) l

unfoldable pub list_to_expr : List Expr → Expr
list_to_expr [] = number_lit []
list_to_expr (e ∷ l) = or_all e l

abbrev pub exprs : List Expr → Exprs
exprs [] = nil
exprs (e ∷ l) = cons e (exprs l)

abbrev in_op : Bool → Text
in_op negate = if negate then codes "NOT IN" else codes "IN"

abbrev negated : Bool → Expr → Expr
negated negate e = if negate then unary_expr (codes "NOT") e else e

abbrev over_window : Parser (Option WindowDef)
unfolding parse_over_clause
over_window = parse_over_clause >>= λ w. pure (some w)

abbrev qualified_column : Text → Parser Expr
unfolding column_name
qualified_column name =
    column_name >>= λ col. pure (column_ref (record { table = name; col = col }))

-- An operand of a function call, and whether DISTINCT stands in front of it.
abbrev pub Argument : Type 0
Argument = Expr × Bool

module _ (primary : Parser Expr) (select : Parser SelectStmt) where
  unfoldable pub parse_mul_div : Parser Expr
  unfolding operators mul_div_op
  parse_mul_div = operators mul_div_op primary

  unfoldable pub parse_add_sub : Parser Expr
  unfolding operators parse_mul_div add_sub_op
  parse_add_sub = operators add_sub_op parse_mul_div

  -- Behind IN and its parenthesis.
  unfoldable pub in_subquery : Bool → Expr → Parser Expr
  unfolding expect
  in_subquery negate left = do
    stmt ← select
    expect TokenType.rparen
    pure (binary_expr left (in_op negate) (subquery_expr stmt))

  unfoldable pub in_values : Bool → Expr → Parser Expr
  unfolding expect comma_list parse_add_sub list_to_expr
  in_values negate left = do
    list ← comma_list parse_add_sub
    expect TokenType.rparen
    pure (binary_expr left (in_op negate) (list_to_expr list))

  unfoldable pub parse_in : Bool → Expr → Parser Expr
  unfolding expect in_subquery in_values
  parse_in negate left = expect TokenType.lparen >> λ ts.
      if peek ts == TokenType.select then in_subquery negate left ts else in_values negate left ts

  unfoldable pub parse_between : Bool → Expr → Parser Expr
  unfolding expect parse_add_sub
  parse_between negate left = do
    low ← parse_add_sub
    expect TokenType.and
    high ← parse_add_sub
    pure (
        if negate
        then binary_expr (binary_expr left (codes "<") low) (codes "OR")
            (binary_expr left (codes ">") high)
        else between_expr left low high)

  unfoldable pub parse_is_null : Expr → Parser Expr
  unfolding accept expect
  parse_is_null left = do
    null_negate ← accept TokenType.not
    expect TokenType.null
    pure (
        binary_expr left (if null_negate then codes "IS NOT NULL" else codes "IS NULL")
          (string_lit []))

  unfoldable pub right_operand : Expr → Text → Parser Expr
  unfolding parse_add_sub
  right_operand left op = parse_add_sub >>= λ right. pure (binary_expr left op right)

  -- The switch of `parseComparison` behind the left operand, with `negate`.
  unfoldable pub comparison_tail : Bool → Expr → Parser Expr
  unfolding right_operand parse_in parse_between parse_is_null comparison_op
  comparison_tail negate left ts = elim (comparison_op (peek ts)) [
    | some op ↦ right_operand left op (drop 1 ts)
    | none ↦
        if peek ts == TokenType.in_
        then parse_in negate left (drop 1 ts)
        else if peek ts == TokenType.between
        then parse_between negate left (drop 1 ts)
        else if peek ts == TokenType.is
        then parse_is_null left (drop 1 ts)
        else ok (negated negate left, ts)
  ]

  unfoldable pub parse_comparison : Parser Expr
  unfolding accept parse_add_sub comparison_tail
  parse_comparison = do
    before ← accept TokenType.not
    left ← parse_add_sub
    behind ← accept TokenType.not
    comparison_tail (before || behind) left

  unfoldable pub parse_expr : Parser Expr
  unfolding operators parse_comparison logical_op
  parse_expr = operators logical_op parse_comparison

  unfoldable pub parse_argument : Parser Argument
  unfolding accept parse_expr
  parse_argument = do distinct ← accept TokenType.distinct; arg ← parse_expr; pure (arg, distinct)

  unfoldable pub argument_list : Parser (List Argument)
  unfolding comma_list parse_argument expect
  argument_list = comma_list parse_argument >>= λ l. expect TokenType.rparen >> pure l

  -- Behind the opening parenthesis of a call.
  unfoldable pub call_arguments : Parser (List Argument)
  unfolding argument_list
  call_arguments ts = if peek ts == TokenType.rparen then ok ([], drop 1 ts) else argument_list ts

  unfoldable pub parse_func_call : Text → Parser Expr
  unfolding call_arguments optional parse_over_clause upper_byte
  parse_func_call name = do
    args ← call_arguments
    over ← optional TokenType.over over_window none
    pure (func_call (to_upper name) (exprs (map (λ a. a.0) args)) [] (any (λ a. a.1) args) over)

  -- Behind CAST.
  unfoldable pub parse_cast : Parser Expr
  unfolding expect parse_expr upper_byte
  parse_cast = do
    expect TokenType.lparen
    e ← parse_expr
    expect TokenType.as_
    type ← expect TokenType.ident
    expect TokenType.rparen
    pure (func_call (codes "CAST") (cons e nil) (to_upper type) false none)

  unfoldable pub parse_parens : Parser Expr
  unfolding expect parse_expr
  parse_parens = parse_expr >>= λ e. expect TokenType.rparen >> pure e

  -- Behind an identifier: a call, a qualified column or a column.
  unfoldable pub name_tail : Text → Parser Expr
  unfolding parse_func_call column_name
  name_tail name ts =
      if peek ts == TokenType.lparen
      then parse_func_call name (drop 1 ts)
      else if peek ts == TokenType.dot
      then (column_name >>= λ col. pure (column_ref (record { table = name; col = col })))
          (drop 1 ts)
      else ok (column_ref (record { table = []; col = name }), ts)

  unfoldable pub minus : Parser Expr
  minus = primary >>= λ e. pure (unary_expr (codes "-") e)

  -- `parsePrimary`, with the primary expressions behind a minus as the parameter.
  unfoldable pub parse_primary : Parser Expr
  unfolding parse_parens parse_cast name_tail minus
  parse_primary [] = failed
  parse_primary (t ∷ ts) =
      if t.type == TokenType.number
      then ok (number_lit t.value, ts)
      else if t.type == TokenType.string
      then ok (string_lit t.value, ts)
      else if t.type == TokenType.null
      then ok (number_lit [], ts)
      else if t.type == TokenType.true
      then ok (number_lit (codes "1"), ts)
      else if t.type == TokenType.false
      then ok (number_lit (codes "0"), ts)
      else if t.type == TokenType.lparen
      then parse_parens ts
      else if t.type == TokenType.cast
      then parse_cast ts
      else if t.type == TokenType.ident
      then name_tail t.value ts
      else if t.type == TokenType.star
      then ok (column_ref (record { table = []; col = codes "*" }), ts)
      else if t.type == TokenType.minus
      then minus ts
      else failed
