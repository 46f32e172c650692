-- ===== src/SqlAst/Parser/Clauses.antt =====
-- `Parse` of src/internal/sqlast/parser.go reads joins and ORDER BY back from their tokens.
use dbexplain.Prelude.{
  ℕ, zero, suc, ◌<◌, Bool, List, [], ◌∷◌, map, length, if◌then◌else◌, ◌≡◌, refl, All, arith, false,
  is_empty, inl, inr, Bool-cases, ◌==◌,
}
use dbexplain.Prelude.Text.{Text, codes}
use dbexplain.SqlAst.{Expr, OrderExpr}
use dbexplain.SqlAst.TokenType
use dbexplain.SqlAst.Lexer.{Token}
use dbexplain.SqlAst.Result.{ok}
use dbexplain.SqlAst.Parsing.{Parser, peek, expect, comma_rounds, optional, accept}
use dbexplain.SqlAst.Clause.{
  parse_order_expr, parse_column_ref, column_name, direction, parse_table_ref, qualified_name,
  table_alias,
}
use dbexplain.SqlAst.Expression.{logical_op, add_sub_op, mul_div_op, comparison_op}
use dbexplain.SqlAst.Expression.Grammar.{Condition, mark, print_condition, condition_expr}
use dbexplain.SqlAst.Expression.Rounds.{EndsCondition, Reads}
use dbexplain.SqlAst.SelectClause.{Joined, join_type, parse_join, join_rounds}
use dbexplain.SqlAst.Parser.RoundTrip.{end}

pub data JoinKind : Type 0 where
  inner_join left_join right_join : JoinKind

-- A join of a table on a condition.
pub record JoinPart : Type 0 where
  pub kind : JoinKind
  pub table : Text
  pub on : Condition

-- A column with its direction.
pub record OrderPart : Type 0 where
  pub name : Text
  pub descending : Bool

abbrev join_mark : Token
join_mark = mark TokenType.join (codes "JOIN")

abbrev pub print_kind : JoinKind → List Token → List Token
print_kind inner_join ts = join_mark ∷ ts
print_kind left_join ts = mark TokenType.left (codes "LEFT") ∷ join_mark ∷ ts
print_kind right_join ts = mark TokenType.right (codes "RIGHT") ∷ join_mark ∷ ts

-- JOIN u ON a condition, for each part.
abbrev pub print_joins : List JoinPart → List Token → List Token
print_joins [] ts = ts
print_joins (j ∷ js) ts = print_kind j.kind (
    mark TokenType.ident j.table
    ∷ mark TokenType.on (codes "ON")
    ∷ print_condition j.on (print_joins js ts))

abbrev print_direction : Bool → Token
print_direction b =
    if b then mark TokenType.desc (codes "DESC") else mark TokenType.asc (codes "ASC")

-- The columns with their directions, a comma between two, up to the end.
abbrev pub print_orders : OrderPart → List OrderPart → List Token
print_orders o [] = mark TokenType.ident o.name ∷ print_direction o.descending ∷ end
print_orders o (o' ∷ os) =
    mark TokenType.ident o.name
    ∷ print_direction o.descending
    ∷ mark TokenType.comma (codes ",")
    ∷ print_orders o' os

abbrev pub kind_text : JoinKind → Text
kind_text inner_join = codes "INNER"
kind_text left_join = codes "LEFT"
kind_text right_join = codes "RIGHT"

abbrev pub joined : JoinPart → Joined
joined j = record { table = j.table; alias = []; on = condition_expr j.on; type = kind_text j.kind }

abbrev pub ordered : OrderPart → OrderExpr
ordered o = record {
  expr = record { table = []; col = o.name };
  dir = if o.descending then codes "DESC" else codes "ASC";
  nulls_dir = [];
}

-- The parser reads the conditions of the joins.
abbrev pub OnReads : Parser Expr → List JoinPart → Type 0
OnReads expr js =
    All (λ j. Reads EndsCondition expr (print_condition j.on) (condition_expr j.on)) js

-- JOIN, its two kinds and ORDER end a condition.
ends_at_left : EndsCondition TokenType.left
unfolding mul_div_op add_sub_op comparison_op logical_op
ends_at_left = (((((refl, refl), refl), refl), (refl, (refl, (refl, (refl, refl))))), refl)

ends_at_right : EndsCondition TokenType.right
unfolding mul_div_op add_sub_op comparison_op logical_op
ends_at_right = (((((refl, refl), refl), refl), (refl, (refl, (refl, (refl, refl))))), refl)

ends_at_join : EndsCondition TokenType.join
unfolding mul_div_op add_sub_op comparison_op logical_op
ends_at_join = (((((refl, refl), refl), refl), (refl, (refl, (refl, (refl, refl))))), refl)

ends_at_order : EndsCondition TokenType.order
unfolding mul_div_op add_sub_op comparison_op logical_op
ends_at_order = (((((refl, refl), refl), refl), (refl, (refl, (refl, (refl, refl))))), refl)

-- ORDER BY and what follows.
abbrev pub ordering : List Token → List Token
ordering ts = mark TokenType.order (codes "ORDER") ∷ mark TokenType.by (codes "BY") ∷ ts

ends_at_kind : (k : JoinKind) (ts : List Token) → EndsCondition (peek (print_kind k ts))
ends_at_kind inner_join ts = ends_at_join
ends_at_kind left_join ts = ends_at_left
ends_at_kind right_join ts = ends_at_right

ends_at_joins :
    (js : List JoinPart) (ts : List Token) → EndsCondition (peek (print_joins js (ordering ts)))
ends_at_joins [] ts = ends_at_order
ends_at_joins (j ∷ js) ts = ends_at_kind j.kind (
    mark TokenType.ident j.table
    ∷ mark TokenType.on (codes "ON")
    ∷ print_condition j.on (print_joins js (ordering ts)))

join_type-print_kind :
    (k : JoinKind) (ts : List Token) → join_type (print_kind k ts) ≡ (kind_text k, join_mark ∷ ts)
unfolding join_type
join_type-print_kind inner_join ts = refl
join_type-print_kind left_join ts = refl
join_type-print_kind right_join ts = refl

parse_join-part :
    (expr : Parser Expr) (j : JoinPart) (us ts : List Token)
    → expr us ≡ ok (condition_expr j.on, ts)
    → parse_join expr
        (kind_text j.kind)
        (join_mark ∷ mark TokenType.ident j.table ∷ mark TokenType.on (codes "ON") ∷ us)
      ≡ ok (joined j, ts)
unfolding parse_join expect parse_table_ref qualified_name table_alias optional condition_expr
parse_join-part expr j us ts read = rw read refl

is_empty-kind_text : (k : JoinKind) → is_empty (kind_text k) ≡ false
is_empty-kind_text inner_join = refl
is_empty-kind_text left_join = refl
is_empty-kind_text right_join = refl

join_step :
    (expr : Parser Expr) (n : ℕ) (j : JoinPart) (js : List Joined) (us ts rest : List Token)
    → expr us ≡ ok (condition_expr j.on, ts)
    → join_rounds expr n ts ≡ ok (js, rest)
    → join_rounds expr
        (suc n)
        (print_kind j.kind (mark TokenType.ident j.table ∷ mark TokenType.on (codes "ON") ∷ us))
      ≡ ok (joined j ∷ js, rest)
unfolding join_rounds
join_step expr n j js us ts rest read more =
    rw
      (
        join_type-print_kind j.kind
            (mark TokenType.ident j.table ∷ mark TokenType.on (codes "ON") ∷ us),
        is_empty-kind_text j.kind,
        parse_join-part expr j us ts read,
        more,
      )
      refl

pub join_rounds-print :
    (expr : Parser Expr) (n : ℕ) (js : List JoinPart) (ts : List Token)
    → length js < n
    → OnReads expr js
    → join_rounds expr n (print_joins js (ordering ts)) ≡ ok (map joined js, ordering ts)
unfolding join_rounds join_type
join_rounds-print expr zero js ts l h = absurd (omega arith)
join_rounds-print expr (suc n) [] ts l h = refl
join_rounds-print expr (suc n) (j ∷ js) ts l h =
    join_step expr n j (map joined js) (print_condition j.on (print_joins js (ordering ts)))
      (print_joins js (ordering ts)) (ordering ts)
      (h.0 (print_joins js (ordering ts)) (ends_at_joins js ts)).1
      (join_rounds-print expr n js ts (omega arith) h.1)

-- A column with its direction, in front of a comma and at the end.
order_read :
    (o : OrderPart) (type : ℕ) (text : Text) (ts : List Token)
    → (type == TokenType.nulls) ≡ false
    → parse_order_expr
        (mark TokenType.ident o.name ∷ print_direction o.descending ∷ mark type text ∷ ts)
      ≡ ok (ordered o, mark type text ∷ ts)
unfolding parse_order_expr parse_column_ref column_name direction accept optional
order_read o type text ts e = elim (Bool-cases o.descending) [
  | inl d ↦ rw (d, e) refl
  | inr d ↦ rw (d, e) refl
]

pub comma_rounds-print :
    (n : ℕ) (o : OrderPart) (os : List OrderPart)
    → length os < n
    → comma_rounds n parse_order_expr (print_orders o os) ≡ ok (map ordered (o ∷ os), end)
unfolding comma_rounds
comma_rounds-print zero o os l = absurd (omega arith)
comma_rounds-print (suc n) o [] l = rw (order_read o TokenType.eof [] [] refl) refl
comma_rounds-print (suc n) o (o' ∷ os) l =
    rw
      (
        order_read o TokenType.comma (codes ",") (print_orders o' os) refl,
        comma_rounds-print n o' os (omega arith),
      )
      refl
