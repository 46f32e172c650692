-- ===== src/SqlAst/Expression/Levels.antt =====
-- The levels of src/internal/sqlast/parser.go read the tokens of the expression grammar back, given that
-- a primary expression reads those of an operand.
use dbexplain.Prelude.{
  ℕ, ◌≤◌, ◌<◌, ◌==◌, Bool, true, false, List, [], ◌∷◌, length, if◌then◌else◌, ◌≡◌, refl, ◌∙◌, arith,
}
use dbexplain.Prelude.Text.{Text, codes}
use dbexplain.SqlAst.{Expr, SelectStmt, binary_expr, between_expr, string_lit}
use dbexplain.SqlAst.TokenType
use dbexplain.SqlAst.Lexer.{Token}
use dbexplain.SqlAst.Result.{ok}
use dbexplain.SqlAst.Parsing.{Parser, peek, expect, accept}
use dbexplain.SqlAst.Expression.{
  logical_op, add_sub_op, mul_div_op, comparison_op, parse_mul_div, parse_add_sub, parse_between,
  parse_is_null, right_operand, comparison_tail, parse_comparison, parse_expr,
}
use dbexplain.SqlAst.Expression.Grammar.{
  Relation, factor, term, relation, connective, Operand, Product, Sum, Comparison, Condition, mark,
  sign, print_operand, print_product, print_sum, null_marks, print_comparison, print_condition,
  operand_expr, product_expr, sum_expr, comparison_expr, condition_expr, operand_depth,
  product_depth, sum_depth, comparison_depth, condition_depth, equal, unequal, below, above,
  at_most, at_least, like, operand, multiply, product, add, sum, compare, between, is_null,
  comparison, connect,
}
use dbexplain.SqlAst.Expression.Rounds.{
  EndsOperand, EndsProduct, EndsSum, EndsComparison, EndsCondition, Reads, Reaches, Reads-Reaches,
  Reaches-next, Reaches-Reads,
}
use dbexplain.SqlAst.Expression.Operators.{
  known_factor, ends_at_factor, known_term, ends_at_term, ends_at_relation, relation_no_not,
  length-null_marks, known_connective, ends_at_connective, starts_sum,
}

module _ (prim : Parser Expr) (sel : Parser SelectStmt) (f : ℕ)
    (o-Reads : (o : Operand)
      → operand_depth o ≤ f
      → Reads EndsOperand prim (print_operand o) (operand_expr o)) where
  product-Reaches :
      (p : Product)
      → product_depth p ≤ f
      → Reaches EndsOperand mul_div_op prim (print_product p) (product_expr p)
  unfolding print_product product_expr product_depth
  product-Reaches (operand o) d =
      Reads-Reaches EndsOperand mul_div_op prim (print_operand o) (operand_expr o) (o-Reads o d)
  product-Reaches (multiply l o r) d =
      Reaches-next EndsOperand mul_div_op prim (factor o) (print_product l) (print_operand r)
        (product_expr l) (operand_expr r) (known_factor o) (ends_at_factor o)
        (product-Reaches l (omega arith)) (o-Reads r (omega arith))

  product-Reads :
      (p : Product)
      → product_depth p ≤ f
      → Reads EndsProduct (parse_mul_div prim sel) (print_product p) (product_expr p)
  unfolding parse_mul_div
  product-Reads p d =
      Reaches-Reads EndsOperand mul_div_op prim (print_product p) (product_expr p)
        (product-Reaches p d)

  sum-Reaches :
      (s : Sum)
      → sum_depth s ≤ f
      → Reaches EndsProduct add_sub_op (parse_mul_div prim sel) (print_sum s) (sum_expr s)
  unfolding print_sum sum_expr sum_depth
  sum-Reaches (product p) d =
      Reads-Reaches EndsProduct add_sub_op (parse_mul_div prim sel) (print_product p)
        (product_expr p) (product-Reads p d)
  sum-Reaches (add l o r) d =
      Reaches-next EndsProduct add_sub_op (parse_mul_div prim sel) (term o) (print_sum l)
        (print_product r) (sum_expr l) (product_expr r) (known_term o) (ends_at_term o)
        (sum-Reaches l (omega arith)) (product-Reads r (omega arith))

  sum-Reads :
      (s : Sum)
      → sum_depth s ≤ f
      → Reads EndsSum (parse_add_sub prim sel) (print_sum s) (sum_expr s)
  unfolding parse_add_sub
  sum-Reads s d =
      Reaches-Reads EndsProduct add_sub_op (parse_mul_div prim sel) (print_sum s) (sum_expr s)
        (sum-Reaches s d)

  tail_from :
      (s : Sum) (ts : List Token)
      → sum_depth s ≤ f
      → EndsSum (peek ts)
      → (peek ts == TokenType.not) ≡ false
      → parse_comparison prim sel (print_sum s ts) ≡ comparison_tail prim sel false (sum_expr s) ts
  unfolding parse_comparison accept
  tail_from s ts d k e = rw (starts_sum s ts, (sum-Reads s d ts k).1, e) refl

  tail_ends :
      (e : Expr) (ts : List Token)
      → EndsComparison (peek ts)
      → comparison_tail prim sel false e ts ≡ ok (e, ts)
  unfolding comparison_tail
  tail_ends e ts (_, (no_op, (_, (no_in, (no_between, no_is))))) =
      rw (no_op, comparison_tail, no_in, no_between, no_is) refl

  tail_relation :
      (e : Expr) (o : Relation) (ts : List Token)
      → comparison_tail prim sel false e (sign (relation o) ∷ ts)
        ≡ right_operand prim sel e (relation o).text ts
  unfolding comparison_tail comparison_op
  tail_relation e equal ts = refl
  tail_relation e unequal ts = refl
  tail_relation e below ts = refl
  tail_relation e above ts = refl
  tail_relation e at_most ts = refl
  tail_relation e at_least ts = refl
  tail_relation e like ts = refl

  operand_read :
      (e : Expr) (op : Text) (s : Sum) (ts : List Token)
      → sum_depth s ≤ f
      → EndsSum (peek ts)
      → right_operand prim sel e op (print_sum s ts) ≡ ok (binary_expr e op (sum_expr s), ts)
  unfolding right_operand
  operand_read e op s ts d k = rw (sum-Reads s d ts k).1 refl

  between_read :
      (s low high : Sum) (ts : List Token)
      → sum_depth s ≤ f
      → sum_depth low ≤ f
      → sum_depth high ≤ f
      → EndsSum (peek ts)
      → parse_between prim sel false
          (sum_expr s)
          (print_sum low (mark TokenType.and (codes "AND") ∷ print_sum high ts))
        ≡ ok (between_expr (sum_expr s) (sum_expr low) (sum_expr high), ts)
  unfolding parse_between expect mul_div_op add_sub_op
  between_read s low high ts d d' d'' k =
      rw
        (
          (sum-Reads low d' (mark TokenType.and (codes "AND") ∷ print_sum high ts)
              (((refl, refl), refl), refl)).1,
          (sum-Reads high d'' ts k).1,
        )
        refl

  null_read :
      (e : Expr) (b : Bool) (ts : List Token)
      → parse_is_null prim sel e (null_marks b ts)
        ≡ ok
            (binary_expr e (if b then codes "IS NOT NULL" else codes "IS NULL") (string_lit []), ts)
  unfolding parse_is_null accept expect null_marks
  null_read e true ts = refl
  null_read e false ts = refl

  tail_between :
      (e : Expr) (ts : List Token)
      → comparison_tail prim sel false e (mark TokenType.between (codes "BETWEEN") ∷ ts)
        ≡ parse_between prim sel false e ts
  unfolding comparison_tail comparison_op
  tail_between e ts = refl

  tail_is :
      (e : Expr) (ts : List Token)
      → comparison_tail prim sel false e (mark TokenType.is (codes "IS") ∷ ts)
        ≡ parse_is_null prim sel e ts
  unfolding comparison_tail comparison_op
  tail_is e ts = refl

  -- What a sum leaves to the tail of a comparison.
  longer_sum :
      (s : Sum) (ts : List Token)
      → sum_depth s ≤ f
      → EndsSum (peek ts)
      → length ts < length (print_sum s ts)
  longer_sum s ts d k = (sum-Reads s d ts k).0

  comparison-Reads :
      (c : Comparison)
      → comparison_depth c ≤ f
      → Reads EndsComparison (parse_comparison prim sel) (print_comparison c) (comparison_expr c)
  unfolding print_comparison comparison_expr comparison_depth mul_div_op add_sub_op
  comparison-Reads (sum s) d ts k =
      (longer_sum s ts d k.0, tail_from s ts d k.0 k.1.1.0 ∙ tail_ends (sum_expr s) ts k)
  comparison-Reads (compare l o r) d ts k =
      let rest = sign (relation o) ∷ print_sum r ts in
      let longer = longer_sum l rest (omega arith) (ends_at_relation o) in
      let longer' = longer_sum r ts (omega arith) k.0 in
      (
        omega arith,
        tail_from l rest (omega arith) (ends_at_relation o) (relation_no_not o)
            ∙ tail_relation (sum_expr l) o (print_sum r ts)
            ∙ operand_read (sum_expr l) (relation o).text r ts (omega arith) k.0,
      )
  comparison-Reads (between s low high) d ts k =
      let last = mark TokenType.and (codes "AND") ∷ print_sum high ts in
      let rest = mark TokenType.between (codes "BETWEEN") ∷ print_sum low last in
      let longer = longer_sum s rest (omega arith) (((refl, refl), refl), refl) in
      let longer' = longer_sum low last (omega arith) (((refl, refl), refl), refl) in
      let longer'' = longer_sum high ts (omega arith) k.0 in
      (
        omega arith,
        tail_from s rest (omega arith) (((refl, refl), refl), refl) refl
            ∙ tail_between (sum_expr s) (print_sum low last)
            ∙ between_read s low high ts (omega arith) (omega arith) (omega arith) k.0,
      )
  comparison-Reads (is_null s b) d ts k =
      let rest = mark TokenType.is (codes "IS") ∷ null_marks b ts in
      let longer = longer_sum s rest d (((refl, refl), refl), refl) in
      (
        omega (arith, length-null_marks b ts),
        tail_from s rest d (((refl, refl), refl), refl) refl
            ∙ tail_is (sum_expr s) (null_marks b ts)
            ∙ null_read (sum_expr s) b ts,
      )

  condition-Reaches :
      (c : Condition)
      → condition_depth c ≤ f
      → Reaches EndsComparison logical_op
          (parse_comparison prim sel)
          (print_condition c)
          (condition_expr c)
  unfolding print_condition condition_expr condition_depth
  condition-Reaches (comparison c) d =
      Reads-Reaches EndsComparison logical_op (parse_comparison prim sel) (print_comparison c)
        (comparison_expr c) (comparison-Reads c d)
  condition-Reaches (connect l o r) d =
      Reaches-next EndsComparison logical_op (parse_comparison prim sel) (connective o)
        (print_condition l) (print_comparison r) (condition_expr l) (comparison_expr r)
        (known_connective o) (ends_at_connective o) (condition-Reaches l (omega arith))
        (comparison-Reads r (omega arith))

  pub condition-Reads :
      (c : Condition)
      → condition_depth c ≤ f
      → Reads EndsCondition (parse_expr prim sel) (print_condition c) (condition_expr c)
  unfolding parse_expr
  condition-Reads c d =
      Reaches-Reads EndsComparison logical_op (parse_comparison prim sel) (print_condition c)
        (condition_expr c) (condition-Reaches c d)
