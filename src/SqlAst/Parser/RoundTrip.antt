-- ===== src/SqlAst/Parser/RoundTrip.antt =====
-- `Parse` of src/internal/sqlast/parser.go reads a condition of the expression grammar back from its
-- tokens.
use dbexplain.Prelude.{ℕ, zero, suc, ◌+◌, ◌≤◌, List, [], ◌∷◌, length, ◌≡◌, refl, arith}
use dbexplain.Prelude.Text.{Text, codes}
use dbexplain.SqlAst.{
  Expr, SelectStmt, select, select_stmt, column, no_columns, no_joins, absent, present, column_ref,
  unary_expr,
}
use dbexplain.SqlAst.TokenType
use dbexplain.SqlAst.Lexer.{Token}
use dbexplain.SqlAst.Result.{ok}
use dbexplain.SqlAst.Parsing.{Parser, expect, skip_semicolons}
use dbexplain.SqlAst.Expression.{
  logical_op, add_sub_op, mul_div_op, comparison_op, parse_expr, parse_parens, name_tail, minus,
}
use dbexplain.SqlAst.Expression.Grammar.{
  Operand, Product, Sum, Comparison, Condition, mark, sign, factor, term, relation, connective,
  null_marks, print_operand, print_product, print_sum, print_comparison, print_condition,
  operand_expr, condition_expr, operand_depth, product_depth, sum_depth, comparison_depth,
  condition_depth, name, qualified, number, text, negative, parens, operand, multiply, product, add,
  sum, compare, between, is_null, comparison, connect,
}
use dbexplain.SqlAst.Expression.Rounds.{EndsOperand, EndsCondition, Reads}
use dbexplain.SqlAst.Expression.Operators.{length-null_marks}
use dbexplain.SqlAst.Expression.Levels.{condition-Reads}
use dbexplain.SqlAst.SelectClause.{parse_single_select, parse_distinct_on, parse_select_list}
use dbexplain.SqlAst.Parser.{primary, single_select, parse_tokens}
use dbexplain.SqlAst.Parser.Shape.{from_table, statement_of}

-- A closing parenthesis and the end of the input end every level.
ends_at_rparen : EndsCondition TokenType.rparen
unfolding mul_div_op add_sub_op comparison_op logical_op
ends_at_rparen = (((((refl, refl), refl), refl), (refl, (refl, (refl, (refl, refl))))), refl)

ends_at_eof : EndsCondition TokenType.eof
unfolding mul_div_op add_sub_op comparison_op logical_op
ends_at_eof = (((((refl, refl), refl), refl), (refl, (refl, (refl, (refl, refl))))), refl)

minus_read :
    (p : Parser Expr) (s : Parser SelectStmt) (us : List Token) (e : Expr) (ts : List Token)
    → p us ≡ ok (e, ts)
    → minus p s us ≡ ok (unary_expr (codes "-") e, ts)
unfolding minus
minus_read p s us e ts read = rw read refl

parens_read :
    (p : Parser Expr) (s : Parser SelectStmt) (us : List Token) (e : Expr) (ts : List Token)
    → parse_expr p s us ≡ ok (e, mark TokenType.rparen (codes ")") ∷ ts)
    → parse_parens p s us ≡ ok (e, ts)
unfolding parse_parens expect
parens_read p s us e ts read = rw read refl

pub operand-Reads :
    (f : ℕ) (o : Operand)
    → operand_depth o ≤ f
    → Reads EndsOperand (primary (suc f)) (print_operand o) (operand_expr o)
unfolding operand_depth print_operand operand_expr primary name_tail minus parse_parens expect
operand-Reads f (name c) d ts (no_call, no_dot) = (omega arith, rw (no_call, no_dot) refl)
operand-Reads f (qualified t c) d ts k = (omega arith, refl)
operand-Reads f (number n) d ts k = (omega arith, refl)
operand-Reads f (text s) d ts k = (omega arith, refl)
operand-Reads zero (negative o) d ts k = absurd (omega arith)
operand-Reads (suc f) (negative o) d ts k =
    let (longer, read) = operand-Reads f o (omega arith) ts k in
    (
      omega arith,
      minus_read (primary (suc f)) (single_select (suc f)) (print_operand o ts) (operand_expr o) ts
          read,
    )
operand-Reads zero (parens c) d ts k = absurd (omega arith)
operand-Reads (suc f) (parens c) d ts k =
    let (longer, read) =
      condition-Reads (primary (suc f)) (single_select (suc f)) f (operand-Reads f) c (omega arith)
        (mark TokenType.rparen (codes ")") ∷ ts) ends_at_rparen in
    (
      omega arith,
      parens_read (primary (suc f)) (single_select (suc f))
          (print_condition c (mark TokenType.rparen (codes ")") ∷ ts)) (condition_expr c) ts read,
    )

-- Every minus sign and parenthesis is a token.
mutual
  unfolding operand_depth product_depth sum_depth comparison_depth condition_depth print_operand
      print_product print_sum print_comparison print_condition

  deep_operand :
      (o : Operand) (ts : List Token) → operand_depth o + length ts ≤ length (print_operand o ts)
  deep_operand (name c) ts = omega arith
  deep_operand (qualified t c) ts = omega arith
  deep_operand (number n) ts = omega arith
  deep_operand (text s) ts = omega arith
  deep_operand (negative o) ts = omega (arith, deep_operand o ts)
  deep_operand (parens c) ts =
      omega (arith, deep_condition c (mark TokenType.rparen (codes ")") ∷ ts))

  deep_product :
      (p : Product) (ts : List Token) → product_depth p + length ts ≤ length (print_product p ts)
  deep_product (operand o) ts = deep_operand o ts
  deep_product (multiply l o r) ts =
      omega (arith, deep_product l (sign (factor o) ∷ print_operand r ts), deep_operand r ts)

  deep_sum : (s : Sum) (ts : List Token) → sum_depth s + length ts ≤ length (print_sum s ts)
  deep_sum (product p) ts = deep_product p ts
  deep_sum (add l o r) ts =
      omega (arith, deep_sum l (sign (term o) ∷ print_product r ts), deep_product r ts)

  deep_comparison :
      (c : Comparison) (ts : List Token)
      → comparison_depth c + length ts ≤ length (print_comparison c ts)
  deep_comparison (sum s) ts = deep_sum s ts
  deep_comparison (compare l o r) ts =
      omega (arith, deep_sum l (sign (relation o) ∷ print_sum r ts), deep_sum r ts)
  deep_comparison (between s low high) ts =
      let last = mark TokenType.and (codes "AND") ∷ print_sum high ts in
      let rest = mark TokenType.between (codes "BETWEEN") ∷ print_sum low last in
      let a = deep_sum s rest in
      let b = deep_sum low last in let c = deep_sum high ts in omega arith
  deep_comparison (is_null s b) ts =
      let rest = mark TokenType.is (codes "IS") ∷ null_marks b ts in
      let a = deep_sum s rest in omega (arith, length-null_marks b ts)

  pub deep_condition :
      (c : Condition) (ts : List Token)
      → condition_depth c + length ts ≤ length (print_condition c ts)
  deep_condition (comparison c) ts = deep_comparison c ts
  deep_condition (connect l o r) ts =
      omega (
        arith,
        deep_condition l (sign (connective o) ∷ print_comparison r ts),
        deep_comparison r ts,
      )

abbrev pub end : List Token
end = mark TokenType.eof [] ∷ []

-- SELECT * FROM a table WHERE a condition
abbrev pub where_tokens : Text → Condition → List Token
where_tokens table c =
    from_table table (mark TokenType.where_ (codes "WHERE") ∷ print_condition c end)

abbrev pub filtered : Text → Expr → SelectStmt
filtered table e =
    select (column (column_ref (record { table = []; col = codes "*" })) [] no_columns) table []
      no_joins (present e) [] [] 0 0 absent []

where_read :
    (expr : Parser Expr) (table : Text) (ts : List Token) (e : Expr)
    → expr ts ≡ ok (e, end)
    → parse_single_select expr (from_table table (mark TokenType.where_ (codes "WHERE") ∷ ts))
      ≡ ok (filtered table e, end)
unfolding parse_single_select expect parse_distinct_on parse_select_list
where_read expr table ts e h = rw h refl

selected :
    (f : ℕ) (table : Text) (c : Condition)
    → condition_depth c ≤ f
    → single_select (suc (suc f)) (where_tokens table c)
      ≡ ok (filtered table (condition_expr c), end)
unfolding single_select
selected f table c d =
    where_read (parse_expr (primary (suc f)) (single_select (suc f))) table (print_condition c end)
      (condition_expr c)
      (condition-Reads (primary (suc f)) (single_select (suc f)) f (operand-Reads f) c d end
        ends_at_eof).1

-- Behind SELECT * FROM and a table, `Parse` reads WHERE and every condition of the grammar back from its
-- tokens: products bind tighter than sums, these tighter than comparisons, and these tighter than AND
-- and OR, which are one level; operators of a level lean to the left, and parentheses and minus signs
-- nest to any depth.
pub parse_tokens-where_tokens :
    (table : Text) (c : Condition)
    → parse_tokens (where_tokens table c)
      ≡ ok (select_stmt (filtered table (condition_expr c)), end)
unfolding parse_tokens skip_semicolons
parse_tokens-where_tokens table c =
    statement_of (suc (length (where_tokens table c))) (where_tokens table c) end
      (filtered table (condition_expr c))
      (selected (suc (suc (suc (suc (length (print_condition c end)))))) table c
        (omega (arith, deep_condition c end)))
      refl refl
