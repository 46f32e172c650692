-- ===== src/SqlAst/Expression/Primary.antt =====
-- What a primary expression of src/internal/sqlast/parser.go takes: calls, CAST, names, parentheses and
-- literals.
use dbexplain.Prelude.{
  ℕ, suc, ◌+◌, ◌≤◌, ◌==◌, List, [], ◌∷◌, none, drop, length, length-drop-le, arith,
}
use dbexplain.Prelude.Text.{Text}
use dbexplain.SqlAst.{Expr, SelectStmt}
use dbexplain.SqlAst.TokenType
use dbexplain.SqlAst.Lexer.{Token}
use dbexplain.SqlAst.Result.{ok, Ensures, Ensures-bind, Ensures-if, Ensures-weaken}
use dbexplain.SqlAst.Parsing.{Parser, peek, expect, accept, optional, comma_list}
use dbexplain.SqlAst.Parsing.Consumes.{
  Any, Gives, Gives-weaken, drop-Gives, optional-Gives, comma_list-Gives, expect-Gives,
  accept-Gives,
}
use dbexplain.SqlAst.Clause.{column_name, parse_over_clause}
use dbexplain.SqlAst.Clause.Consumes.{column_name-Gives}
use dbexplain.SqlAst.Clause.Window.{parse_over_clause-Gives}
use dbexplain.SqlAst.Expression.{
  parse_expr, parse_argument, call_arguments, argument_list, parse_func_call, over_window,
  parse_cast, parse_parens, qualified_column, name_tail, minus, parse_primary,
}
use dbexplain.SqlAst.Expression.Consumes.{expr-Gives, behind-Gives}

module _ (primary : Parser Expr) (select : Parser SelectStmt) (n : ℕ)
    (p-Gives : Gives Any 1 n primary) (s-Gives : Gives Any 1 n select) where
  e-Gives : Gives Any 1 n (parse_expr primary select)
  e-Gives = expr-Gives primary select n p-Gives s-Gives

  argument-Gives : Gives Any 1 n (parse_argument primary select)
  unfolding parse_argument
  argument-Gives ts l =
      Ensures-bind _ _ (accept TokenType.distinct ts) _ (accept-Gives n TokenType.distinct ts l)
        λ (d, r0) (s0, _).
          Ensures-bind _ _ (parse_expr primary select r0) _ (e-Gives r0 (omega arith))
            λ (arg, r1) (s1, _). (omega arith, tt)

  argument_list-Gives : Gives Any 2 n (argument_list primary select)
  unfolding argument_list
  argument_list-Gives ts l =
      Ensures-bind _ _ (comma_list (parse_argument primary select) ts) _
        (comma_list-Gives Any n (parse_argument primary select) argument-Gives ts l)
        λ (args, r0) (s0, _).
          Ensures-bind _ _ (expect TokenType.rparen r0) _
            (expect-Gives n TokenType.rparen r0 (omega arith)) λ (_, r1) (s1, _). (omega arith, tt)

  arguments-Gives : Gives Any 0 n (call_arguments primary select)
  unfolding call_arguments
  arguments-Gives ts l =
      Ensures-if _ (peek ts == TokenType.rparen) (ok ([], drop 1 ts))
        (argument_list primary select ts) (λ _. (omega (arith, length-drop-le 1 ts), tt))
        (λ _.
          Ensures-weaken _ _ (argument_list primary select ts) (argument_list-Gives ts l)
            λ r (a, b). (omega arith, tt))

  over_window-Gives : Gives Any 2 n over_window
  unfolding over_window
  over_window-Gives ts l =
      Ensures-bind _ _ (parse_over_clause ts) _ (parse_over_clause-Gives n ts l)
        λ (w, r0) (s0, _). (omega arith, tt)

  func_call-Gives : (name : Text) → Gives Any 0 n (parse_func_call primary select name)
  unfolding parse_func_call
  func_call-Gives name ts l =
      Ensures-bind _ _ (call_arguments primary select ts) _ (arguments-Gives ts l)
        λ (args, r0) (s0, _).
          Ensures-bind _ _ (optional TokenType.over over_window none r0) _
            (optional-Gives Any n TokenType.over over_window none
              (Gives-weaken Any Any 2 0 n over_window (omega arith) (λ _ _. tt) over_window-Gives)
              tt r0 (omega arith))
            λ (over, r1) (s1, _). (omega arith, tt)

  cast-Gives : Gives Any 1 n (parse_cast primary select)
  unfolding parse_cast
  cast-Gives ts l =
      Ensures-bind _ _ (expect TokenType.lparen ts) _ (expect-Gives n TokenType.lparen ts l)
        λ (_, r0) (s0, _).
          Ensures-bind _ _ (parse_expr primary select r0) _ (e-Gives r0 (omega arith))
            λ (e, r1) (s1, _).
              Ensures-bind _ _ (expect TokenType.as_ r1) _
                (expect-Gives n TokenType.as_ r1 (omega arith))
                λ (_, r2) (s2, _).
                  Ensures-bind _ _ (expect TokenType.ident r2) _
                    (expect-Gives n TokenType.ident r2 (omega arith))
                    λ (type, r3) (s3, _).
                      Ensures-bind _ _ (expect TokenType.rparen r3) _
                        (expect-Gives n TokenType.rparen r3 (omega arith))
                        λ (_, r4) (s4, _). (omega arith, tt)

  parens-Gives : Gives Any 1 n (parse_parens primary select)
  unfolding parse_parens
  parens-Gives ts l =
      Ensures-bind _ _ (parse_expr primary select ts) _ (e-Gives ts l) λ (e, r0) (s0, _).
        Ensures-bind _ _ (expect TokenType.rparen r0) _
          (expect-Gives n TokenType.rparen r0 (omega arith)) λ (_, r1) (s1, _). (omega arith, tt)

  qualified_column-Gives : (name : Text) → Gives Any 1 n (qualified_column name)
  unfolding qualified_column
  qualified_column-Gives name ts l =
      Ensures-bind _ _ (column_name ts) _ (column_name-Gives n ts l)
        λ (col, r0) (s0, _). (omega arith, tt)

  name_tail-Gives : (name : Text) → Gives Any 0 n (name_tail primary select name)
  unfolding name_tail
  name_tail-Gives name ts l =
      Ensures-if _ (peek ts == TokenType.lparen) (parse_func_call primary select name (drop 1 ts)) _
        (λ _. drop-Gives Any n (parse_func_call primary select name) ts (func_call-Gives name) l)
        (λ _.
          Ensures-if _ (peek ts == TokenType.dot) (qualified_column name (drop 1 ts)) _
            (λ _. behind-Gives n (qualified_column name) ts (qualified_column-Gives name) l)
            (λ _. (omega arith, tt)))

  minus-Gives : Gives Any 1 n (minus primary select)
  unfolding minus
  minus-Gives ts l =
      Ensures-bind _ _ (primary ts) _ (p-Gives ts l) λ (e, r0) (s0, _). (omega arith, tt)

  -- What stands behind the first token of a primary expression.
  behind-first :
      (p : Parser Expr) (ts : List Token) (k : ℕ)
      → Gives Any k n p
      → length ts ≤ n
      → Ensures (λ r. (1 + length r.1 ≤ suc (length ts)) × Any r.0) (p ts)
  behind-first p ts k h l = Ensures-weaken _ _ (p ts) (h ts l) λ r (a, b). (omega arith, tt)

  pub primary-Gives : Gives Any 1 (suc n) (parse_primary primary select)
  unfolding parse_primary
  primary-Gives [] l = tt
  primary-Gives (t ∷ ts) l =
      Ensures-if _ (t.type == TokenType.number) _ _ (λ _. (omega arith, tt))
        λ _.
          Ensures-if _ (t.type == TokenType.string) _ _ (λ _. (omega arith, tt))
            λ _.
              Ensures-if _ (t.type == TokenType.null) _ _ (λ _. (omega arith, tt))
                λ _.
                  Ensures-if _ (t.type == TokenType.true) _ _ (λ _. (omega arith, tt))
                    λ _.
                      Ensures-if _ (t.type == TokenType.false) _ _ (λ _. (omega arith, tt))
                        λ _.
                          Ensures-if _ (t.type == TokenType.lparen) _ _
                            (λ _.
                              behind-first (parse_parens primary select) ts 1 parens-Gives
                                (omega arith))
                            λ _.
                              Ensures-if _ (t.type == TokenType.cast) _ _
                                (λ _.
                                  behind-first (parse_cast primary select) ts 1 cast-Gives
                                    (omega arith))
                                λ _.
                                  Ensures-if _ (t.type == TokenType.ident) _ _
                                    (λ _.
                                      behind-first (name_tail primary select t.value) ts 0
                                        (name_tail-Gives t.value) (omega arith))
                                    λ _.
                                      Ensures-if _ (t.type == TokenType.star) _ _
                                        (λ _. (omega arith, tt))
                                        λ _.
                                          Ensures-if _ (t.type == TokenType.minus) _ _
                                            (λ _.
                                              behind-first (minus primary select) ts 1 minus-Gives
                                                (omega arith))
                                            λ _. tt
