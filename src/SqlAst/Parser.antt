-- ===== src/SqlAst/Parser.antt =====
-- The recursion of src/internal/sqlast/parser.go, `parseStatement`, and `Parse` with its lexer. A
-- primary expression and a subquery take one unit of fuel for each that stands around them.
pub mod Ends
pub mod Shape
pub mod RoundTrip
pub mod Clauses
pub mod Ordered
use dbexplain.Prelude.{
  ℕ, zero, suc, ◌==◌, Bool, List, [], ◌∷◌, Option, none, some, drop, length, if◌then◌else◌,
}
use dbexplain.Prelude.Text.{Text}
use dbexplain.SqlAst.{Expr, SelectStmt, Stmt, select_stmt, union_stmt}
use dbexplain.SqlAst.TokenType
use dbexplain.SqlAst.Lexer.{Token, tokenize}
use dbexplain.SqlAst.Result.{Result, ok, failed, out_of_fuel, bind}
use dbexplain.SqlAst.Parsing.{Parser, pure, ◌>>=◌, ◌>>◌, peek, accept, semicolons, skip_semicolons}
use dbexplain.SqlAst.Expression.{parse_primary, parse_expr}
use dbexplain.SqlAst.SelectClause.{parse_single_select}

unfoldable mutual
  unfolding parse_primary parse_single_select parse_expr

  pub primary : ℕ → Parser Expr
  primary zero ts = out_of_fuel
  primary (suc f) ts = parse_primary (primary f) (single_select f) ts

  pub single_select : ℕ → Parser SelectStmt
  single_select zero ts = out_of_fuel
  single_select (suc f) ts = parse_single_select (parse_expr (primary f) (single_select f)) ts

-- Behind UNION.
unfoldable pub union_tail : ℕ → SelectStmt → Parser Stmt
unfolding accept single_select skip_semicolons
union_tail f left = do
  all ← accept TokenType.all
  right ← single_select f
  semicolons
  pure (union_stmt left right all)

unfoldable pub parse_statement : ℕ → Parser Stmt
unfolding single_select skip_semicolons union_tail
parse_statement f = do
  left ← single_select f
  semicolons
  λ ts.
      if peek ts == TokenType.union
      then union_tail f left (drop 1 ts)
      else ok (select_stmt left, ts)

-- No expression is deeper than there are tokens.
unfoldable pub parse_tokens : List Token → Result (Stmt × List Token)
unfolding parse_statement
parse_tokens ts = parse_statement (suc (length ts)) ts

-- `Parse`, which looks at no token behind the statement.
unfoldable pub parse_sql : Text → Result Stmt
unfolding tokenize parse_tokens
parse_sql sql = bind (tokenize sql) λ ts. bind (parse_tokens ts) λ (stmt, rest). ok stmt

abbrev pub to_option {ℓ} : {A : Type ℓ} → Result A → Option A
to_option (ok a) = some a
to_option failed = none
to_option out_of_fuel = none

-- The statement, or `none` where `Parse` returns an error.
unfoldable pub parse : Text → Option Stmt
unfolding parse_sql
parse sql = to_option (parse_sql sql)
