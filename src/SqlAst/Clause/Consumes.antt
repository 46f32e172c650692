-- ===== src/SqlAst/Clause/Consumes.antt =====
-- What the clauses of src/internal/sqlast/parser.go take and give: they end, directions are ASC or
-- DESC, and numbers are those of an int.
use dbexplain.Prelude.{
  ℕ, ◌<◌, ◌==◌, leb, ◌||◌, ◌&&◌, Bool, true, false, [], ◌∷◌, Option, none, some, All, drop,
  length-drop-le, is_empty, Bool-cases, if◌then◌else◌, ◌≡◌, ◌⊎◌, inl, inr, refl, arith,
}
use dbexplain.Prelude.Text.{Text, codes, one_of}
use dbexplain.SqlAst.{OrderExpr}
use dbexplain.SqlAst.TokenType
use dbexplain.SqlAst.Result.{ok, failed, Ensures-bind, Ensures-if, Ensures-weaken}
use dbexplain.SqlAst.Parsing.{pure, peek, expect, accept, optional, comma_list}
use dbexplain.SqlAst.Parsing.Consumes.{
  Any, Gives, pure-Gives, Gives-weaken, if-Gives, optional-Gives, Some-All, comma_list-Gives,
  expect-Gives, accept-Gives,
}
use dbexplain.SqlAst.Clause.{
  dotted, in_range, digits_value, atoi, number_or_fail, parse_number, column_name, column_of,
  parse_column_ref, qualified_name, no_alias, table_alias, parse_table_ref, direction,
  nulls_direction, parse_order_expr, by_columns, by_order,
}

abbrev pub IsInt : ℕ → Type 0
IsInt n = n < 9_223_372_036_854_775_808

in_range-Gives : (n : ℕ) (s : Text) (o : Option ℕ) → Gives IsInt 0 n (number_or_fail (in_range s o))
in_range-Gives n s none ts l = tt
in_range-Gives n s (some m) ts l =
    elim (Bool-cases (is_empty s || leb 9_223_372_036_854_775_808 m)) [
      | inl b ↦ rw b tt
      | inr b ↦ rw b (omega arith, ground (arith, b))
    ]

number_or_fail-Gives : (n : ℕ) (s : Text) → Gives IsInt 0 n (number_or_fail (atoi s))
unfolding atoi
number_or_fail-Gives n s = in_range-Gives n s (digits_value 0 s)

pub parse_number-Gives : (n : ℕ) → Gives IsInt 1 n parse_number
unfolding parse_number
parse_number-Gives n ts l =
    Ensures-bind _ _ (expect TokenType.number ts) _ (expect-Gives n TokenType.number ts l)
      λ (value, r0) (s0, _).
        Ensures-weaken _ _ (number_or_fail (atoi value) r0)
          (number_or_fail-Gives n value r0 (omega arith)) λ r (a, b). (omega arith, b)

pub column_name-Gives : (n : ℕ) → Gives Any 1 n column_name
unfolding column_name
column_name-Gives n [] l = tt
column_name-Gives n (t ∷ ts) l =
    Ensures-if _ (t.type == TokenType.ident || t.type == TokenType.star) (ok (t.value, ts)) failed
      (λ _. (omega arith, tt)) (λ _. tt)

column_of-Gives : (n : ℕ) (table : Text) → Gives Any 1 n (column_of table)
unfolding column_of
column_of-Gives n table ts l =
    Ensures-bind _ _ (column_name ts) _ (column_name-Gives n ts l)
      λ (col, r0) (s0, _). (omega arith, tt)

pub parse_column_ref-Gives : (n : ℕ) → Gives Any 1 n parse_column_ref
unfolding parse_column_ref
parse_column_ref-Gives n [] l = tt
parse_column_ref-Gives n (t ∷ ts) l =
    Ensures-if _ (t.type == TokenType.ident && peek ts == TokenType.dot)
      (column_of t.value (drop 1 ts)) (column_of [] (t ∷ ts))
      (λ _.
        Ensures-weaken _ _ (column_of t.value (drop 1 ts))
          (column_of-Gives n t.value (drop 1 ts) (omega (arith, length-drop-le 1 ts)))
          λ r (a, b). (omega (arith, length-drop-le 1 ts), tt))
      (λ _. column_of-Gives n [] (t ∷ ts) l)

dotted-Gives : (n : ℕ) (name : Text) → Gives Any 1 n (dotted name)
unfolding dotted
dotted-Gives n name ts l =
    Ensures-bind _ _ (expect TokenType.ident ts) _ (expect-Gives n TokenType.ident ts l)
      λ (table, r0) (s0, _). (omega arith, tt)

qualified_name-Gives : (n : ℕ) (name : Text) → Gives Any 0 n (qualified_name name)
unfolding qualified_name
qualified_name-Gives n name =
    optional-Gives Any n TokenType.dot (dotted name) name
      (Gives-weaken Any Any 1 0 n (dotted name) (omega arith) (λ _ _. tt) (dotted-Gives n name)) tt

table_alias-Gives : (n : ℕ) → Gives Any 0 n table_alias
unfolding table_alias
table_alias-Gives n [] l = (omega arith, tt)
table_alias-Gives n (t ∷ ts) l =
    Ensures-if _ (t.type == TokenType.ident) _ (ok ([], t ∷ ts))
      (λ _.
        Ensures-if _ (one_of t.value no_alias) (ok ([], t ∷ ts)) (ok (t.value, ts))
          (λ _. (omega arith, tt)) (λ _. (omega arith, tt)))
      (λ _. (omega arith, tt))

pub parse_table_ref-Gives : (n : ℕ) → Gives Any 1 n parse_table_ref
unfolding parse_table_ref
parse_table_ref-Gives n ts l =
    Ensures-bind _ _ (expect TokenType.ident ts) _ (expect-Gives n TokenType.ident ts l)
      λ (first, r0) (s0, _).
        Ensures-bind _ _ (qualified_name first r0) _ (qualified_name-Gives n first r0 (omega arith))
          λ (name, r1) (s1, _).
            Ensures-bind _ _ (table_alias r1) _ (table_alias-Gives n r1 (omega arith))
              λ (alias, r2) (s2, _). (omega arith, tt)

abbrev pub IsDirection : OrderExpr → Type 0
IsDirection o = (o.dir ≡ codes "ASC") ⊎ (o.dir ≡ codes "DESC")

abbrev Directs : Text → Type 0
Directs d = (d ≡ codes "ASC") ⊎ (d ≡ codes "DESC")

named : (b : Bool) → Directs (if b then codes "DESC" else codes "ASC")
named true = inr refl
named false = inl refl

direction-Gives : (n : ℕ) → Gives Directs 0 n direction
unfolding direction
direction-Gives n ts l =
    Ensures-bind _ _ (accept TokenType.asc ts) _ (accept-Gives n TokenType.asc ts l)
      λ (ascending, r0) (s0, _).
        Ensures-bind _ _ ((if ascending then pure false else accept TokenType.desc) r0) _
          (if-Gives Any 0 n ascending (pure false) (accept TokenType.desc)
            (pure-Gives Any n false tt) (accept-Gives n TokenType.desc) r0 (omega arith))
          λ (descending, r1) (s1, _). (omega arith, named descending)

nulls_direction-Gives : (n : ℕ) → Gives Any 0 n nulls_direction
unfolding nulls_direction
nulls_direction-Gives n ts l =
    Ensures-if _ (peek ts == TokenType.first) (ok (codes "FIRST", drop 1 ts)) _
      (λ _. (omega (arith, length-drop-le 1 ts), tt))
      (λ _.
        Ensures-if _ (peek ts == TokenType.last) (ok (codes "LAST", drop 1 ts)) (ok ([], ts))
          (λ _. (omega (arith, length-drop-le 1 ts), tt)) (λ _. (omega arith, tt)))

parse_order_expr-Gives : (n : ℕ) → Gives IsDirection 1 n parse_order_expr
unfolding parse_order_expr
parse_order_expr-Gives n ts l =
    Ensures-bind _ _ (parse_column_ref ts) _ (parse_column_ref-Gives n ts l) λ (col, r0) (s0, _).
      Ensures-bind _ _ (direction r0) _ (direction-Gives n r0 (omega arith)) λ (dir, r1) (s1, d).
        Ensures-bind _ _ (optional TokenType.nulls nulls_direction [] r1) _
          (optional-Gives Any n TokenType.nulls nulls_direction [] (nulls_direction-Gives n) tt r1
            (omega arith))
          λ (nulls, r2) (s2, _). (omega arith, d)

pub by_columns-Gives : (n : ℕ) → Gives Any 2 n by_columns
unfolding by_columns
by_columns-Gives n ts l =
    Ensures-bind _ _ (expect TokenType.by ts) _ (expect-Gives n TokenType.by ts l)
      λ (_, r0) (s0, _).
        Ensures-weaken _ _ (comma_list parse_column_ref r0)
          (comma_list-Gives Any n parse_column_ref (parse_column_ref-Gives n) r0 (omega arith))
          λ r (a, b). (omega arith, tt)

pub by_order-Gives : (n : ℕ) → Gives (All IsDirection) 2 n by_order
unfolding by_order
by_order-Gives n ts l =
    Ensures-bind _ _ (expect TokenType.by ts) _ (expect-Gives n TokenType.by ts l)
      λ (_, r0) (s0, _).
        Ensures-weaken _ _ (comma_list parse_order_expr r0)
          (comma_list-Gives IsDirection n parse_order_expr (parse_order_expr-Gives n) r0
            (omega arith))
          λ r (a, b). (omega arith, Some-All IsDirection r.0 b)
