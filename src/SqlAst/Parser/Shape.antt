-- ===== src/SqlAst/Parser/Shape.antt =====
-- What the parser of src/internal/sqlast/parser.go reads of a statement, and where it stops.
use dbexplain.Prelude.{arith, ℕ, suc, ◌==◌, ◌||◌, Bool, false, List, [], ◌∷◌, length, ◌≡◌, refl}
use dbexplain.Prelude.Text.{Text, codes}
use dbexplain.SqlAst.{
  Expr, SelectStmt, select, select_stmt, column, no_columns, no_joins, absent, column_ref,
}
use dbexplain.SqlAst.TokenType
use dbexplain.SqlAst.Lexer.{Token}
use dbexplain.SqlAst.Result.{ok}
use dbexplain.SqlAst.Parsing.{Parser, peek, expect, optional, skip_semicolons}
use dbexplain.SqlAst.Clause.{
  by_columns, by_order, parse_number, parse_table_ref, qualified_name, table_alias,
}
use dbexplain.SqlAst.Expression.{parse_expr}
use dbexplain.SqlAst.SelectClause.{
  parse_single_select, parse_present, parse_distinct_on, parse_select_list, parse_joins,
  join_rounds, join_type,
}
use dbexplain.SqlAst.Parser.{primary, single_select, parse_statement, parse_tokens}

abbrev pub token : ℕ → Text → ℕ → Token
token type value pos = record { type = type; value = value; pos = pos }

-- SELECT * FROM and a table.
abbrev pub all_of : Text → SelectStmt
all_of table =
    select (column (column_ref (record { table = []; col = codes "*" })) [] no_columns) table []
      no_joins absent [] [] 0 0 absent []

abbrev pub from_table : Text → List Token → List Token
from_table table ts =
    token TokenType.select (codes "SELECT") 0
    ∷ token TokenType.star (codes "*") 7
    ∷ token TokenType.from (codes "FROM") 9
    ∷ token TokenType.ident table 14
    ∷ ts

-- The types of the tokens that the parser looks for behind a table.
abbrev pub continues : ℕ → Bool
continues type =
    type == TokenType.ident
    || (type == TokenType.dot
        || (type == TokenType.left
            || (type == TokenType.right
                || (type == TokenType.join
                    || (type == TokenType.where_
                        || (type == TokenType.group
                            || (type == TokenType.having
                                || (type == TokenType.order
                                    || (type == TokenType.limit
                                        || (type == TokenType.offset
                                            || (type == TokenType.semicolon
                                                || (type == TokenType.union))))))))))))

optional_skips :
    {A : Type 0} (type : ℕ) (p : Parser A) (a : A) (ts : List Token)
    → (peek ts == type) ≡ false
    → optional type p a ts ≡ ok (a, ts)
unfolding optional
optional_skips type p a ts e = rw e refl

joins_skip :
    (expr : Parser Expr) (t : Token) (ts : List Token)
    → (t.type == TokenType.left) ≡ false
    → (t.type == TokenType.right) ≡ false
    → (t.type == TokenType.join) ≡ false
    → parse_joins expr (t ∷ ts) ≡ ok ([], t ∷ ts)
unfolding parse_joins join_rounds join_type
joins_skip expr t ts e f g = rw (e, f, g) refl

behind_table :
    (table : Text) (t : Token) (ts : List Token)
    → (t.type == TokenType.ident) ≡ false
    → (t.type == TokenType.dot) ≡ false
    → optional TokenType.from parse_table_ref
        ([], [])
        (token TokenType.from (codes "FROM") 9 ∷ token TokenType.ident table 14 ∷ t ∷ ts)
      ≡ ok ((table, []), t ∷ ts)
unfolding parse_table_ref expect qualified_name table_alias optional
behind_table table t ts e f = rw (f, e) refl

semicolons_skip :
    (t : Token) (ts : List Token)
    → (t.type == TokenType.semicolon) ≡ false
    → skip_semicolons (t ∷ ts) ≡ t ∷ ts
unfolding skip_semicolons
semicolons_skip t ts e = rw e refl

-- The clauses of a SELECT behind the table, and what they are where the statement ends there.
from_only :
    (expr : Parser Expr) (table : Text) (t : Token) (ts : List Token)
    → continues t.type ≡ false
    → parse_single_select expr (from_table table (t ∷ ts)) ≡ ok (all_of table, t ∷ ts)
unfolding parse_single_select expect parse_distinct_on parse_select_list
from_only expr table t ts h =
    rw
      (
        behind_table table t ts (ground (arith, h)) (ground (arith, h)),
        joins_skip expr t ts (ground (arith, h)) (ground (arith, h)) (ground (arith, h)),
        skips TokenType.where_ (parse_present expr) absent (ground (arith, h)),
        skips TokenType.group by_columns [] (ground (arith, h)),
        skips TokenType.having (parse_present expr) absent (ground (arith, h)),
        skips TokenType.order by_order [] (ground (arith, h)),
        skips TokenType.limit parse_number 0 (ground (arith, h)),
        skips TokenType.offset parse_number 0 (ground (arith, h)),
      )
      refl
  where
    skips :
        {A : Type 0} (type : ℕ) (p : Parser A) (a : A)
        → (t.type == type) ≡ false
        → optional type p a (t ∷ ts) ≡ ok (a, t ∷ ts)
    skips type p a e = optional_skips type p a (t ∷ ts) e

select_only :
    (f : ℕ) (table : Text) (t : Token) (ts : List Token)
    → continues t.type ≡ false
    → single_select (suc f) (from_table table (t ∷ ts)) ≡ ok (all_of table, t ∷ ts)
unfolding single_select
select_only f table t ts h = from_only (parse_expr (primary f) (single_select f)) table t ts h

pub statement_of :
    (f : ℕ) (ts rest : List Token) (s : SelectStmt)
    → single_select f ts ≡ ok (s, rest)
    → skip_semicolons rest ≡ rest
    → (peek rest == TokenType.union) ≡ false
    → parse_statement f ts ≡ ok (select_stmt s, rest)
unfolding parse_statement
statement_of f ts rest s a b c = rw (a, b, c) refl

-- The parser stops at the first token that it has no use for, and never looks at what stands behind
-- it: whatever the other tokens are, a statement that goes on in a way unknown to the parser, such as
-- AS or a comma behind the table, reads as the SELECT of all columns of that table alone.
pub parse_tokens-stops :
    (table : Text) (t : Token) (ts : List Token)
    → continues t.type ≡ false
    → parse_tokens (from_table table (t ∷ ts)) ≡ ok (select_stmt (all_of table), t ∷ ts)
unfolding parse_tokens
parse_tokens-stops table t ts h =
    statement_of (suc (length (from_table table (t ∷ ts)))) (from_table table (t ∷ ts)) (t ∷ ts)
      (all_of table) (select_only (length (from_table table (t ∷ ts))) table t ts h)
      (semicolons_skip t ts (ground (arith, h))) (ground (arith, h))
