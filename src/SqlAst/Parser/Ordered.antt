-- ===== src/SqlAst/Parser/Ordered.antt =====
-- `Parse` of src/internal/sqlast/parser.go reads a SELECT with joins and ORDER BY back from its tokens.
use dbexplain.Prelude.{
  ℕ, suc, ◌+◌, ◌≤◌, ◌<◌, List, [], ◌∷◌, map, length, ◌≡◌, refl, arith, false, ◌==◌,
}
use dbexplain.Prelude.Text.{Text, codes}
use dbexplain.SqlAst.{Expr, SelectStmt, select, select_stmt, column, no_columns, absent, column_ref}
use dbexplain.SqlAst.TokenType
use dbexplain.SqlAst.Lexer.{Token}
use dbexplain.SqlAst.Result.{ok}
use dbexplain.SqlAst.Parsing.{Parser, peek, expect, skip_semicolons, comma_list, optional}
use dbexplain.SqlAst.Clause.{by_order, parse_table_ref, qualified_name, table_alias}
use dbexplain.SqlAst.Expression.{parse_expr}
use dbexplain.SqlAst.Expression.Grammar.{mark, print_condition, condition_depth}
use dbexplain.SqlAst.Expression.Levels.{condition-Reads}
use dbexplain.SqlAst.SelectClause.{
  parse_single_select, parse_distinct_on, parse_select_list, join_clauses, parse_joins,
}
use dbexplain.SqlAst.Parser.{primary, single_select, parse_tokens}
use dbexplain.SqlAst.Parser.Shape.{token, from_table, statement_of}
use dbexplain.SqlAst.Parser.Clauses.{
  JoinKind, inner_join, left_join, right_join, JoinPart, OrderPart, print_kind, print_joins,
  print_orders, joined, ordered, ordering, OnReads, join_rounds-print, comma_rounds-print,
}
use dbexplain.SqlAst.Parser.RoundTrip.{operand-Reads, deep_condition, end}

-- No clause that the parser looks for behind a table name but a join.
table_alias-joins :
    (js : List JoinPart) (ts : List Token)
    → table_alias (print_joins js (ordering ts)) ≡ ok ([], print_joins js (ordering ts))
unfolding table_alias
table_alias-joins [] ts = refl
table_alias-joins (j ∷ js) ts = go j.kind _
  where
    go : (k : JoinKind) (us : List Token) → table_alias (print_kind k us) ≡ ok ([], print_kind k us)
    go inner_join us = refl
    go left_join us = refl
    go right_join us = refl

no_dot :
    (js : List JoinPart) (ts : List Token)
    → (peek (print_joins js (ordering ts)) == TokenType.dot) ≡ false
no_dot [] ts = refl
no_dot (j ∷ js) ts = go j.kind _
  where
    go : (k : JoinKind) (us : List Token) → (peek (print_kind k us) == TokenType.dot) ≡ false
    go inner_join us = refl
    go left_join us = refl
    go right_join us = refl

from_read :
    (table : Text) (us : List Token)
    → (peek us == TokenType.dot) ≡ false
    → table_alias us ≡ ok ([], us)
    → optional TokenType.from parse_table_ref
        ([], [])
        (token TokenType.from (codes "FROM") 9 ∷ token TokenType.ident table 14 ∷ us)
      ≡ ok ((table, []), us)
unfolding parse_table_ref expect qualified_name optional
from_read table us e f = rw (e, f) refl

length-print_kind : (k : JoinKind) (ts : List Token) → length ts < length (print_kind k ts)
length-print_kind inner_join ts = omega arith
length-print_kind left_join ts = omega arith
length-print_kind right_join ts = omega arith

-- Every join is a token at least, and its condition no deeper than its tokens.
abbrev joins_depth : List JoinPart → ℕ
joins_depth [] = 0
joins_depth (j ∷ js) = condition_depth j.on + joins_depth js

deep_joins :
    (js : List JoinPart) (ts : List Token)
    → length js + joins_depth js + length ts ≤ length (print_joins js ts)
deep_joins [] ts = omega arith
deep_joins (j ∷ js) ts =
    let us = print_condition j.on (print_joins js ts) in
    let a = deep_joins js ts in
    let b = deep_condition j.on (print_joins js ts) in
    let c =
      length-print_kind j.kind
        (mark TokenType.ident j.table ∷ mark TokenType.on (codes "ON") ∷ us) in
    omega arith

length-print_orders : (o : OrderPart) (os : List OrderPart) → length os < length (print_orders o os)
length-print_orders o [] = omega arith
length-print_orders o (o' ∷ os) = omega (arith, length-print_orders o' os)

parse_joins-print :
    (expr : Parser Expr) (js : List JoinPart) (ts : List Token)
    → OnReads expr js
    → parse_joins expr (print_joins js (ordering ts)) ≡ ok (map joined js, ordering ts)
unfolding parse_joins
parse_joins-print expr js ts h =
    join_rounds-print expr (suc (length (print_joins js (ordering ts)))) js ts
      (omega (arith, deep_joins js (ordering ts))) h

by_order-print :
    (o : OrderPart) (os : List OrderPart)
    → by_order (mark TokenType.by (codes "BY") ∷ print_orders o os) ≡ ok (map ordered (o ∷ os), end)
unfolding by_order expect comma_list
by_order-print o os =
    comma_rounds-print (suc (length (print_orders o os))) o os
      (omega (arith, length-print_orders o os))

-- SELECT * FROM a table, joins, ORDER BY
abbrev pub ordered_tokens : Text → List JoinPart → OrderPart → List OrderPart → List Token
ordered_tokens table js o os = from_table table (print_joins js (ordering (print_orders o os)))

abbrev pub ordered_select : Text → List JoinPart → List OrderPart → SelectStmt
ordered_select table js os =
    select (column (column_ref (record { table = []; col = codes "*" })) [] no_columns) table []
      (join_clauses (map joined js)) absent [] (map ordered os) 0 0 absent []

select_read :
    (expr : Parser Expr) (table : Text) (js : List JoinPart) (o : OrderPart) (os : List OrderPart)
    → OnReads expr js
    → parse_single_select expr (ordered_tokens table js o os)
      ≡ ok (ordered_select table js (o ∷ os), end)
unfolding parse_single_select expect parse_distinct_on parse_select_list
select_read expr table js o os h =
    rw
      (
        from_read table (print_joins js (ordering (print_orders o os)))
            (no_dot js (print_orders o os)) (table_alias-joins js (print_orders o os)),
        parse_joins-print expr js (print_orders o os) h,
        by_order-print o os,
      )
      refl

all_read :
    (f : ℕ) (js : List JoinPart)
    → joins_depth js ≤ f
    → OnReads (parse_expr (primary (suc f)) (single_select (suc f))) js
all_read f [] d = tt
all_read f (j ∷ js) d = (
  condition-Reads (primary (suc f)) (single_select (suc f)) f (operand-Reads f) j.on (omega arith),
  all_read f js (omega arith),
)

selected :
    (f : ℕ) (table : Text) (js : List JoinPart) (o : OrderPart) (os : List OrderPart)
    → joins_depth js ≤ f
    → single_select (suc (suc f)) (ordered_tokens table js o os)
      ≡ ok (ordered_select table js (o ∷ os), end)
unfolding single_select
selected f table js o os d =
    select_read (parse_expr (primary (suc f)) (single_select (suc f))) table js o os
      (all_read f js d)

-- Behind SELECT * FROM and a table, `Parse` reads any sequence of joins and a list of columns with
-- directions behind ORDER BY back from their tokens: each join with its own kind, INNER, LEFT or
-- RIGHT, its table and its condition, and each column with its own direction, in their order.
pub parse_tokens-ordered_tokens :
    (table : Text) (js : List JoinPart) (o : OrderPart) (os : List OrderPart)
    → parse_tokens (ordered_tokens table js o os)
      ≡ ok (select_stmt (ordered_select table js (o ∷ os)), end)
unfolding parse_tokens skip_semicolons
parse_tokens-ordered_tokens table js o os =
    let rest = print_joins js (ordering (print_orders o os)) in
    statement_of (suc (length (ordered_tokens table js o os))) (ordered_tokens table js o os) end
      (ordered_select table js (o ∷ os))
      (selected (suc (suc (suc (length rest)))) table js o os
        (omega (arith, deep_joins js (ordering (print_orders o os)))))
      refl refl
