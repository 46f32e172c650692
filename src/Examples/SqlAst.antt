-- ===== src/Examples/SqlAst.antt =====
-- The lexer and the parser of src/internal/sqlast on a few texts, alone and below the policies.
use dbexplain.Prelude.{
  false, true, ℕ, ◌≡◌, ◌≢◌, refl, List, [], ◌∷◌, Option, none, some, length, map,
}
use dbexplain.Prelude.Text.{Text, codes, upper_byte, lower_byte}
use dbexplain.SqlAst.{
  Stmt, select, select_stmt, column, no_columns, no_joins, join, absent, present, column_ref,
  binary_expr, number_lit,
}
use dbexplain.SqlAst.TokenType
use dbexplain.SqlAst.Lexer.{Token, tokenize}
use dbexplain.SqlAst.Lexer.Progress.{Ordered, tokenize-Ordered}
use dbexplain.SqlAst.Result.{Result, ok, failed, out_of_fuel, Ensures}
use dbexplain.SqlAst.Parser.{parse, parse_sql, parse_tokens}
use dbexplain.SqlAst.Parser.Ends.{parse_sql-returns}
use dbexplain.SqlAst.Parser.Shape.{token, all_of, from_table, parse_tokens-stops}
use dbexplain.SqlAst.Expression.Grammar.{
  Condition, name, number, negative, parens, operand, multiply, product, add, sum, compare, is_null,
  comparison, connect, times, less, equal, or, condition_expr, print_condition,
}
use dbexplain.SqlAst.Parser.RoundTrip.{where_tokens, filtered, end, parse_tokens-where_tokens}
use dbexplain.SqlAst.Parser.Clauses.{JoinPart, OrderPart, left_join}
use dbexplain.SqlAst.Parser.Ordered.{ordered_tokens, ordered_select, parse_tokens-ordered_tokens}
use dbexplain.Policy.Config.{Config}
use dbexplain.Policy.Check.{check_sql, extract_table_names, extract_column_refs}

abbrev types_and_positions : Result (List Token) → Option (List (ℕ × ℕ))
types_and_positions (ok ts) = some (map (λ t. (t.type, t.pos)) ts)
types_and_positions failed = none
types_and_positions out_of_fuel = none

tokens_found :
    types_and_positions (tokenize (codes "Select a1.5, 'it''s'<=2.50"))
    ≡ some (
        (TokenType.select, 0)
        ∷ (TokenType.ident, 7)
        ∷ (TokenType.dot, 9)
        ∷ (TokenType.number, 10)
        ∷ (TokenType.comma, 11)
        ∷ (TokenType.string, 13)
        ∷ (TokenType.le, 20)
        ∷ (TokenType.number, 22)
        ∷ (TokenType.eof, 26)
        ∷ [])
unfolding tokenize TokenType.keywords
tokens_found = refl

quote_open : tokenize (codes "select 'a") ≡ failed
unfolding tokenize TokenType.keywords
quote_open = refl

tokenize-Ordered_example :
    Ensures
      (Ordered 0 (length (codes "select 'a''b' <> 2")))
      (tokenize (codes "select 'a''b' <> 2"))
tokenize-Ordered_example = tokenize-Ordered (codes "select 'a''b' <> 2")

abbrev joined_text : Text
joined_text = codes "select * from t b left join u on b.x = 1 order by y desc limit 5;"

abbrev joined_stmt : Stmt
joined_stmt = select_stmt (
    select (column (column_ref (record { table = []; col = codes "*" })) [] no_columns) (codes "t")
      (codes "b")
      (join (codes "u") []
        (present (
          binary_expr (column_ref (record { table = codes "b"; col = codes "x" })) (codes "=")
            (number_lit (codes "1"))))
        (codes "LEFT") no_joins)
      absent []
      (record { expr = record { table = []; col = codes "y" }; dir = codes "DESC"; nulls_dir = [] }
        ∷ [])
      5 0 absent [])

joined_parsed : parse joined_text ≡ some joined_stmt
unfolding parse TokenType.keywords
joined_parsed = refl

parse_sql-returns_example : parse_sql joined_text ≢ out_of_fuel
parse_sql-returns_example = parse_sql-returns joined_text

-- LEFT JOIN u ON a = 1
abbrev left_u : JoinPart
left_u = record {
  kind = left_join;
  table = codes "u";
  on = comparison (
      compare (product (operand (name (codes "a")))) equal
        (product (operand (number (codes "1")))));
}

abbrev by_name : OrderPart
by_name = record { name = codes "b"; descending = true }

abbrev by_age : OrderPart
by_age = record { name = codes "c"; descending = false }

parse_tokens-ordered_tokens_example :
    parse_tokens (ordered_tokens (codes "t") (left_u ∷ []) by_name (by_age ∷ []))
    ≡ ok (select_stmt (ordered_select (codes "t") (left_u ∷ []) (by_name ∷ by_age ∷ [])), end)
parse_tokens-ordered_tokens_example =
    parse_tokens-ordered_tokens (codes "t") (left_u ∷ []) by_name (by_age ∷ [])

-- FROM t AS b JOIN secret
parse_tokens-stops_example :
    parse_tokens (
      from_table (codes "t") (
        token TokenType.as_ (codes "AS") 16
        ∷ token TokenType.ident (codes "b") 19
        ∷ token TokenType.join (codes "JOIN") 21
        ∷ token TokenType.ident (codes "secret") 26
        ∷ []))
    ≡ ok (
      select_stmt (all_of (codes "t")),
      token TokenType.as_ (codes "AS") 16
          ∷ token TokenType.ident (codes "b") 19
          ∷ token TokenType.join (codes "JOIN") 21
          ∷ token TokenType.ident (codes "secret") 26
          ∷ [],
    )
parse_tokens-stops_example =
    parse_tokens-stops (codes "t") (token TokenType.as_ (codes "AS") 16)
      (token TokenType.ident (codes "b") 19
        ∷ token TokenType.join (codes "JOIN") 21
        ∷ token TokenType.ident (codes "secret") 26
        ∷ [])
      refl

abbrev denies_secret : Config
denies_secret = record {
  deny_tables = codes "secret" ∷ [];
  deny_columns = [];
  deny_statements = [];
  mask_columns = [];
}

-- The tables behind an alias with AS are not compared with the denied ones.
join_behind_as_passes :
    check_sql parse denies_secret (codes "select * from t as b join secret s on b.x = s.x") ≡ none
unfolding check_sql extract_table_names extract_column_refs parse TokenType.keywords upper_byte
    lower_byte
join_behind_as_passes = refl

comma_behind_star_passes : check_sql parse denies_secret (codes "select *, 1 from secret") ≡ none
unfolding check_sql extract_table_names extract_column_refs parse TokenType.keywords upper_byte
    lower_byte
comma_behind_star_passes = refl

-- Without AS the table is found.
join_denied :
    extract_table_names parse (codes "select * from t b join secret s on b.x = s.x")
    ≡ codes "t" ∷ codes "secret" ∷ []
unfolding extract_table_names parse TokenType.keywords upper_byte lower_byte
join_denied = refl

-- AND and OR are one level: `a or b and c` is read as `(a or b) and c`.
and_or_one_level :
    parse (codes "select 1 where a or b and c") ≡ parse (codes "select 1 where (a or b) and c")
unfolding parse TokenType.keywords
and_or_one_level = refl

-- The negation in front of an equation is lost.
negation_lost : parse (codes "select 1 where not a = 1") ≡ parse (codes "select 1 where a = 1")
unfolding parse TokenType.keywords
negation_lost = refl

negated_pattern_lost :
    parse (codes "select 1 where a not like 'x'") ≡ parse (codes "select 1 where a like 'x'")
unfolding parse TokenType.keywords
negated_pattern_lost = refl

distinct_lost : parse (codes "select distinct a from t") ≡ parse (codes "select a from t")
unfolding parse TokenType.keywords
distinct_lost = refl

third_union_lost :
    parse (codes "select 1 union select 2 union select 3") ≡ parse (codes "select 1 union select 2")
unfolding parse TokenType.keywords
third_union_lost = refl

-- a OR x - 2 * (-x IS NOT NULL) = 2
abbrev sample_condition : Condition
sample_condition =
    let x_missing = is_null (product (operand (negative (name (codes "x"))))) true in
    let two = operand (number (codes "2")) in
    let x = product (operand (name (codes "x"))) in
    let a = sum (product (operand (name (codes "a")))) in
    connect (comparison a) or (
      compare (add x less (multiply two times (parens (comparison x_missing)))) equal (product two))

parse_tokens-where_tokens_example :
    parse_tokens (where_tokens (codes "t") sample_condition)
    ≡ ok (select_stmt (filtered (codes "t") (condition_expr sample_condition)), end)
parse_tokens-where_tokens_example = parse_tokens-where_tokens (codes "t") sample_condition

-- The tokens are those that the lexer finds, up to their positions.
abbrev types_of : Result (List Token) → Option (List (ℕ × Text))
types_of (ok ts) = some (map (λ t. (t.type, t.value)) ts)
types_of failed = none
types_of out_of_fuel = none

sample_tokens :
    types_of (tokenize (codes "SELECT * FROM t WHERE a OR x - 2 * (-x IS NOT NULL) = 2"))
    ≡ types_of (ok (where_tokens (codes "t") sample_condition))
unfolding tokenize TokenType.keywords print_condition
sample_tokens = refl
