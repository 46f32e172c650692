-- ===== src/SqlAst/Clause.antt =====
-- The parts of a SELECT of src/internal/sqlast/parser.go that hold no expression: column and table
-- names, ORDER BY, LIMIT, and the OVER clause of a window function.
pub mod Consumes
pub mod Window
use dbexplain.Prelude.{
  ℕ, zero, suc, ◌+◌, ◌*◌, ◌-◌, ◌==◌, ltb, leb, ◌&&◌, ◌||◌, Bool, true, false, List, [], ◌∷◌, ◌++◌,
  Option, none, some, drop, map, if◌then◌else◌, is_empty,
}
use dbexplain.Prelude.Text.{Text, codes, one_of}
use dbexplain.SqlAst.{
  ColumnRef, OrderExpr, FrameBoundType, FrameBound, WindowFrame, WindowDef, unbounded_preceding,
  offset_preceding, current_row, offset_following, unbounded_following,
}
use dbexplain.SqlAst.TokenType
use dbexplain.SqlAst.Lexer.{Token, is_digit}
use dbexplain.SqlAst.Result.{Result, ok, failed, out_of_fuel, bind}
use dbexplain.SqlAst.Parsing.{Parser, pure, ◌>>=◌, ◌>>◌, peek, expect, accept, optional, comma_list}

-- strconv.Atoi, on the text of a number token: `none` for a fraction and for a number above the
-- largest int.
abbrev digits_value : ℕ → Text → Option ℕ
digits_value n [] = some n
digits_value n (c ∷ s) =
    let rest = digits_value (10 * n + (c - b'0')) s in if is_digit c then rest else none

abbrev in_range : Text → Option ℕ → Option ℕ
in_range s none = none
in_range s (some n) = if is_empty s || leb 9_223_372_036_854_775_808 n then none else some n

unfoldable pub atoi : Text → Option ℕ
atoi s = in_range s (digits_value 0 s)

abbrev pub number_or_fail : Option ℕ → Parser ℕ
number_or_fail (some n) = pure n
number_or_fail none = λ ts. failed

-- A number token behind LIMIT or OFFSET, or in front of PRECEDING or FOLLOWING.
unfoldable pub parse_number : Parser ℕ
unfolding expect atoi
parse_number = expect TokenType.number >>= λ value. number_or_fail (atoi value)

-- An identifier or a star.
unfoldable pub column_name : Parser Text
column_name [] = failed
column_name (t ∷ ts) =
    if t.type == TokenType.ident || t.type == TokenType.star then ok (t.value, ts) else failed

abbrev column_of : Text → Parser ColumnRef
unfolding column_name
column_of table = column_name >>= λ col. pure (record { table = table; col = col })

unfoldable pub parse_column_ref : Parser ColumnRef
unfolding column_of
parse_column_ref [] = failed
parse_column_ref (t ∷ ts) =
    if t.type == TokenType.ident && peek ts == TokenType.dot
    then column_of t.value (drop 1 ts)
    else column_of [] (t ∷ ts)

-- The schema and the table, joined by a dot.
abbrev dotted : Text → Parser Text
unfolding expect
dotted name = expect TokenType.ident >>= λ table. pure (name ++ codes "." ++ table)

unfoldable pub qualified_name : Text → Parser Text
unfolding dotted
qualified_name name = optional TokenType.dot (dotted name) name

abbrev no_alias : List Text
no_alias =
    codes "ON"
    ∷ codes "WHERE"
    ∷ codes "ORDER"
    ∷ codes "GROUP"
    ∷ codes "LIMIT"
    ∷ codes "JOIN"
    ∷ codes "AS"
    ∷ []

unfoldable pub table_alias : Parser Text
table_alias [] = ok ([], [])
table_alias (t ∷ ts) =
    if t.type == TokenType.ident
    then (if one_of t.value no_alias then ok ([], t ∷ ts) else ok (t.value, ts))
    else ok ([], t ∷ ts)

unfoldable pub parse_table_ref : Parser (Text × Text)
unfolding expect qualified_name table_alias
parse_table_ref = do
  first ← expect TokenType.ident
  name ← qualified_name first
  alias ← table_alias
  pure (name, alias)

-- ASC or DESC; ASC where neither stands.
unfoldable pub direction : Parser Text
unfolding accept
direction = do
  ascending ← accept TokenType.asc
  descending ← (if ascending then pure false else accept TokenType.desc)
  pure (if descending then codes "DESC" else codes "ASC")

-- Behind NULLS: FIRST, LAST, or nothing.
unfoldable pub nulls_direction : Parser Text
nulls_direction ts =
    if peek ts == TokenType.first
    then ok (codes "FIRST", drop 1 ts)
    else if peek ts == TokenType.last
    then ok (codes "LAST", drop 1 ts)
    else ok ([], ts)

unfoldable pub parse_order_expr : Parser OrderExpr
unfolding parse_column_ref direction optional nulls_direction
parse_order_expr = do
  col ← parse_column_ref
  dir ← direction
  nulls ← optional TokenType.nulls nulls_direction []
  pure (record { expr = col; dir = dir; nulls_dir = nulls })

-- The lists behind GROUP BY and PARTITION BY, and behind ORDER BY.
unfoldable pub by_columns : Parser (List ColumnRef)
unfolding expect comma_list parse_column_ref
by_columns = expect TokenType.by >> comma_list parse_column_ref

unfoldable pub by_order : Parser (List OrderExpr)
unfolding expect comma_list parse_order_expr
by_order = expect TokenType.by >> comma_list parse_order_expr

abbrev bound : FrameBoundType → ℕ → FrameBound
bound type offset = record { type = type; offset = offset }

-- PRECEDING or FOLLOWING behind UNBOUNDED or a number.
unfoldable pub bound_side : FrameBound → FrameBound → Parser FrameBound
unfolding accept expect
bound_side before after = do
  preceding ← accept TokenType.preceding
  (if preceding then pure before else (expect TokenType.following >> pure after))

-- ROW behind CURRENT, or ROWS.
unfoldable pub current_bound : Parser FrameBound
unfolding accept expect
current_bound = do
  row ← accept TokenType.row
  (if row
      then pure (bound current_row 0)
      else (expect TokenType.rows >> pure (bound current_row 0)))

unfoldable pub offset_bound : Parser FrameBound
unfolding parse_number bound_side
offset_bound =
    parse_number >>= λ n. bound_side (bound offset_preceding n) (bound offset_following n)

unfoldable pub parse_frame_bound : Parser FrameBound
unfolding bound_side current_bound offset_bound
parse_frame_bound ts =
    if peek ts == TokenType.unbounded
    then bound_side (bound unbounded_preceding 0) (bound unbounded_following 0) (drop 1 ts)
    else if peek ts == TokenType.current
    then current_bound (drop 1 ts)
    else offset_bound ts

unfoldable pub between_bounds : Text → Parser WindowFrame
unfolding parse_frame_bound expect
between_bounds type = do
  start ← parse_frame_bound
  expect TokenType.and
  end ← parse_frame_bound
  pure (record { type = type; start = start; end = end })

unfoldable pub single_bound : Text → Parser WindowFrame
unfolding parse_frame_bound
single_bound type = do
  start ← parse_frame_bound
  pure (record { type = type; start = start; end = bound current_row 0 })

-- Behind ROWS, RANGE or ROW.
unfoldable pub frame_bounds : Text → Parser WindowFrame
unfolding between_bounds single_bound
frame_bounds type ts =
    if peek ts == TokenType.between then between_bounds type (drop 1 ts) else single_bound type ts

abbrev some_frame : Text → Parser (Option WindowFrame)
unfolding frame_bounds
some_frame type = frame_bounds type >>= λ f. pure (some f)

unfoldable pub parse_frame_clause : Parser (Option WindowFrame)
unfolding some_frame
parse_frame_clause ts =
    if peek ts == TokenType.rows || peek ts == TokenType.row
    then some_frame (codes "ROWS") (drop 1 ts)
    else if peek ts == TokenType.range
    then some_frame (codes "RANGE") (drop 1 ts)
    else ok (none, ts)

-- `parseOverClause` behind OVER.
unfoldable pub parse_over_clause : Parser WindowDef
unfolding expect optional by_columns by_order parse_frame_clause
parse_over_clause = do
  expect TokenType.lparen
  partition ← optional TokenType.partition by_columns []
  order ← optional TokenType.order by_order []
  frame ← parse_frame_clause
  expect TokenType.rparen
  pure (record { partition_by = partition; order_by = order; frame = frame })
