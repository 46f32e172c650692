-- ===== src/SqlAst/Expression/Consumes.antt =====
-- What the expressions of src/internal/sqlast/parser.go take, given what a primary expression and a
-- subquery take.
use dbexplain.Prelude.{
  ℕ, ◌+◌, ◌≤◌, ◌==◌, ◌||◌, Bool, List, none, some, drop, length, if◌then◌else◌, Option-cases, ◌≡◌,
  inl, inr, refl, arith,
}
use dbexplain.Prelude.Text.{Text}
use dbexplain.SqlAst.{Expr, SelectStmt}
use dbexplain.SqlAst.TokenType
use dbexplain.SqlAst.Lexer.{Token}
use dbexplain.SqlAst.Result.{ok, Ensures, Ensures-bind, Ensures-if, Ensures-weaken}
use dbexplain.SqlAst.Parsing.{Parser, peek, expect, accept, comma_list}
use dbexplain.SqlAst.Parsing.Consumes.{
  Any, Gives, Gives-weaken, drop-Gives, comma_list-Gives, expect-Gives, accept-Gives,
  operators-Gives,
}
use dbexplain.SqlAst.Expression.{
  logical_op, add_sub_op, mul_div_op, comparison_op, parse_mul_div, parse_add_sub, in_subquery,
  in_values, parse_in, parse_between, parse_is_null, right_operand, comparison_tail,
  parse_comparison, parse_expr, negated,
}

-- A parser that takes a token, called behind another.
pub behind-Gives :
    (n : ℕ) (p : Parser Expr) (ts : List Token)
    → Gives Any 1 n p
    → length ts ≤ n
    → Ensures (λ r. (0 + length r.1 ≤ length ts) × Any r.0) (p (drop 1 ts))
behind-Gives n p ts h l =
    drop-Gives Any n p ts (Gives-weaken Any Any 1 0 n p (omega arith) (λ _ _. tt) h) l

module _ (primary : Parser Expr) (select : Parser SelectStmt) (n : ℕ)
    (p-Gives : Gives Any 1 n primary) (s-Gives : Gives Any 1 n select) where
  mul_div-Gives : Gives Any 1 n (parse_mul_div primary select)
  unfolding parse_mul_div
  mul_div-Gives = operators-Gives mul_div_op n primary p-Gives

  add_sub-Gives : Gives Any 1 n (parse_add_sub primary select)
  unfolding parse_add_sub
  add_sub-Gives = operators-Gives add_sub_op n (parse_mul_div primary select) mul_div-Gives

  in_subquery-Gives :
      (negate : Bool) (left : Expr) → Gives Any 1 n (in_subquery primary select negate left)
  unfolding in_subquery
  in_subquery-Gives negate left ts l =
      Ensures-bind _ _ (select ts) _ (s-Gives ts l) λ (stmt, r0) (s0, _).
        Ensures-bind _ _ (expect TokenType.rparen r0) _
          (expect-Gives n TokenType.rparen r0 (omega arith)) λ (_, r1) (s1, _). (omega arith, tt)

  in_values-Gives :
      (negate : Bool) (left : Expr) → Gives Any 1 n (in_values primary select negate left)
  unfolding in_values
  in_values-Gives negate left ts l =
      Ensures-bind _ _ (comma_list (parse_add_sub primary select) ts) _
        (comma_list-Gives Any n (parse_add_sub primary select) add_sub-Gives ts l)
        λ (list, r0) (s0, _).
          Ensures-bind _ _ (expect TokenType.rparen r0) _
            (expect-Gives n TokenType.rparen r0 (omega arith)) λ (_, r1) (s1, _). (omega arith, tt)

  in-Gives : (negate : Bool) (left : Expr) → Gives Any 1 n (parse_in primary select negate left)
  unfolding parse_in
  in-Gives negate left ts l =
      Ensures-bind _ _ (expect TokenType.lparen ts) _ (expect-Gives n TokenType.lparen ts l)
        λ (_, r0) (s0, _).
          Ensures-if _ (peek r0 == TokenType.select) (in_subquery primary select negate left r0)
            (in_values primary select negate left r0)
            (λ _.
              Ensures-weaken _ _ (in_subquery primary select negate left r0)
                (in_subquery-Gives negate left r0 (omega arith)) λ r (a, b). (omega arith, tt))
            (λ _.
              Ensures-weaken _ _ (in_values primary select negate left r0)
                (in_values-Gives negate left r0 (omega arith)) λ r (a, b). (omega arith, tt))

  between-Gives :
      (negate : Bool) (left : Expr) → Gives Any 1 n (parse_between primary select negate left)
  unfolding parse_between
  between-Gives negate left ts l =
      Ensures-bind _ _ (parse_add_sub primary select ts) _ (add_sub-Gives ts l) λ (low, r0) (s0, _).
        Ensures-bind _ _ (expect TokenType.and r0) _ (expect-Gives n TokenType.and r0 (omega arith))
          λ (_, r1) (s1, _).
            Ensures-bind _ _ (parse_add_sub primary select r1) _ (add_sub-Gives r1 (omega arith))
              λ (high, r2) (s2, _). (omega arith, tt)

  is_null-Gives : (left : Expr) → Gives Any 1 n (parse_is_null primary select left)
  unfolding parse_is_null
  is_null-Gives left ts l =
      Ensures-bind _ _ (accept TokenType.not ts) _ (accept-Gives n TokenType.not ts l)
        λ (null_negate, r0) (s0, _).
          Ensures-bind _ _ (expect TokenType.null r0) _
            (expect-Gives n TokenType.null r0 (omega arith)) λ (_, r1) (s1, _). (omega arith, tt)

  right_operand-Gives :
      (left : Expr) (op : Text) → Gives Any 1 n (right_operand primary select left op)
  unfolding right_operand
  right_operand-Gives left op ts l =
      Ensures-bind _ _ (parse_add_sub primary select ts) _ (add_sub-Gives ts l)
        λ (right, r0) (s0, _). (omega arith, tt)

  tail-some :
      (negate : Bool) (left : Expr) (ts : List Token) (op : Text)
      → comparison_op (peek ts) ≡ some op
      → comparison_tail primary select negate left ts
        ≡ right_operand primary select left op (drop 1 ts)
  unfolding comparison_tail
  tail-some negate left ts op e = rw (e, comparison_tail) refl

  tail-none :
      (negate : Bool) (left : Expr) (ts : List Token)
      → comparison_op (peek ts) ≡ none
      → comparison_tail primary select negate left ts ≡ (
          if peek ts == TokenType.in_
          then parse_in primary select negate left (drop 1 ts)
          else if peek ts == TokenType.between
          then parse_between primary select negate left (drop 1 ts)
          else if peek ts == TokenType.is
          then parse_is_null primary select left (drop 1 ts)
          else ok (negated negate left, ts))
  unfolding comparison_tail
  tail-none negate left ts e = rw (e, comparison_tail) refl

  tail-Gives :
      (negate : Bool) (left : Expr) → Gives Any 0 n (comparison_tail primary select negate left)
  tail-Gives negate left ts l = elim (Option-cases (comparison_op (peek ts))) [
    | inr (op, e) ↦
        rw (tail-some negate left ts op e)
          (behind-Gives n (right_operand primary select left op) ts (right_operand-Gives left op) l)
    | inl e ↦ rw (tail-none negate left ts e) (
        Ensures-if _ (peek ts == TokenType.in_) (parse_in primary select negate left (drop 1 ts)) _
          (λ _. behind-Gives n (parse_in primary select negate left) ts (in-Gives negate left) l)
          (λ _.
            Ensures-if _ (peek ts == TokenType.between)
              (parse_between primary select negate left (drop 1 ts)) _
              (λ _.
                behind-Gives n (parse_between primary select negate left) ts
                  (between-Gives negate left) l)
              (λ _.
                Ensures-if _ (peek ts == TokenType.is)
                  (parse_is_null primary select left (drop 1 ts)) (ok (negated negate left, ts))
                  (λ _.
                    behind-Gives n (parse_is_null primary select left) ts (is_null-Gives left) l)
                  (λ _. (omega arith, tt)))))
  ]

  comparison-Gives : Gives Any 1 n (parse_comparison primary select)
  unfolding parse_comparison
  comparison-Gives ts l =
      Ensures-bind _ _ (accept TokenType.not ts) _ (accept-Gives n TokenType.not ts l)
        λ (before, r0) (s0, _).
          Ensures-bind _ _ (parse_add_sub primary select r0) _ (add_sub-Gives r0 (omega arith))
            λ (left, r1) (s1, _).
              Ensures-bind _ _ (accept TokenType.not r1) _
                (accept-Gives n TokenType.not r1 (omega arith))
                λ (behind, r2) (s2, _).
                  Ensures-weaken _ _ (comparison_tail primary select (before || behind) left r2)
                    (tail-Gives (before || behind) left r2 (omega arith))
                    λ r (a, b). (omega arith, tt)

  pub expr-Gives : Gives Any 1 n (parse_expr primary select)
  unfolding parse_expr
  expr-Gives = operators-Gives logical_op n (parse_comparison primary select) comparison-Gives
