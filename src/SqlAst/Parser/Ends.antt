-- ===== src/SqlAst/Parser/Ends.antt =====
-- The parser of src/internal/sqlast/parser.go ends on every text, and what its statements are like.
use dbexplain.Prelude.{ℕ, zero, suc, ◌==◌, [], ◌∷◌, drop, length, length-drop-le, ◌≢◌, arith}
use dbexplain.Prelude.Text.{Text}
use dbexplain.SqlAst.{SelectStmt, Stmt, select_stmt, union_stmt}
use dbexplain.SqlAst.TokenType
use dbexplain.SqlAst.Lexer.{tokenize}
use dbexplain.SqlAst.Lexer.Progress.{tokenize-Ordered}
use dbexplain.SqlAst.Result.{
  ok, out_of_fuel, Ensures, Ensures-bind, Ensures-if, Ensures-weaken, Ensures-returns,
}
use dbexplain.SqlAst.Parsing.{peek, accept, skip_semicolons}
use dbexplain.SqlAst.Parsing.Consumes.{Any, Gives, Gives-weaken, accept-Gives, semicolons-Gives}
use dbexplain.SqlAst.Expression.{parse_expr}
use dbexplain.SqlAst.Expression.Consumes.{expr-Gives}
use dbexplain.SqlAst.Expression.Primary.{primary-Gives}
use dbexplain.SqlAst.SelectClause.WellFormed.{IsWellFormed, single_select-Gives}
use dbexplain.SqlAst.Parser.{
  primary, single_select, union_tail, parse_statement, parse_tokens, parse_sql,
}

abbrev pub AreWellFormed : Stmt → Type 0
AreWellFormed (select_stmt s) = IsWellFormed s
AreWellFormed (union_stmt s t all) = IsWellFormed s × IsWellFormed t

-- One more unit of fuel than there are tokens is enough.
fuelled : (n : ℕ) → Gives Any 1 n (primary (suc n)) × Gives IsWellFormed 1 n (single_select (suc n))
unfolding primary single_select
fuelled zero = (no_primary, no_select)
  where
    no_primary : Gives Any 1 0 (primary 1)
    no_primary [] l = tt
    no_primary (t ∷ ts) l = absurd (omega arith)

    no_select : Gives IsWellFormed 1 0 (single_select 1)
    no_select [] l = tt
    no_select (t ∷ ts) l = absurd (omega arith)
fuelled (suc n) =
    let (p, s) = fuelled n in
    let s' =
      Gives-weaken IsWellFormed Any 1 1 n (single_select (suc n)) (omega arith) (λ _ _. tt) s in
    (
      primary-Gives (primary (suc n)) (single_select (suc n)) n p s',
      single_select-Gives (parse_expr (primary (suc n)) (single_select (suc n))) n
          (expr-Gives (primary (suc n)) (single_select (suc n)) n p s'),
    )

union_tail-Gives :
    (n : ℕ) (left : SelectStmt)
    → IsWellFormed left
    → Gives AreWellFormed 1 n (union_tail (suc n) left)
unfolding union_tail
union_tail-Gives n left h ts l =
    Ensures-bind _ _ (accept TokenType.all ts) _ (accept-Gives n TokenType.all ts l)
      λ (all, r0) (s0, _).
        Ensures-bind _ _ (single_select (suc n) r0) _ ((fuelled n).1 r0 (omega arith))
          λ (right, r1) (s1, h').
            let s2 = (semicolons-Gives n r1 (omega arith)).0 in (omega arith, (h, h'))

parse_statement-Gives : (n : ℕ) → Gives AreWellFormed 1 n (parse_statement (suc n))
unfolding parse_statement
parse_statement-Gives n ts l =
    Ensures-bind _ _ (single_select (suc n) ts) _ ((fuelled n).1 ts l) λ (left, r0) (s0, h).
      let s1 = (semicolons-Gives n r0 (omega arith)).0 in
      let r1 = skip_semicolons r0 in
      Ensures-if _ (peek r1 == TokenType.union) (union_tail (suc n) left (drop 1 r1))
        (ok (select_stmt left, r1))
        (λ _.
          Ensures-weaken _ _ (union_tail (suc n) left (drop 1 r1))
            (union_tail-Gives n left h (drop 1 r1) (omega (arith, length-drop-le 1 r1)))
            λ r (a, b). (omega (arith, length-drop-le 1 r1), b))
        (λ _. (omega arith, h))

sql-Ensures : (sql : Text) → Ensures AreWellFormed (parse_sql sql)
unfolding parse_sql parse_tokens
sql-Ensures sql = Ensures-bind _ _ (tokenize sql) _ (tokenize-Ordered sql) λ ts _.
    Ensures-bind _ _ (parse_tokens ts) _ (parse_statement-Gives (length ts) ts (omega arith))
      λ (stmt, rest) (shorter, h). h

-- `Parse` ends on every text, with a statement or an error: the loops and the recursion of the lexer
-- and of the parser take a token at least in every round.
pub parse_sql-returns : (sql : Text) → parse_sql sql ≢ out_of_fuel
parse_sql-returns sql = Ensures-returns AreWellFormed (parse_sql sql) (sql-Ensures sql)
