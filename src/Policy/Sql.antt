-- ===== src/Policy/Sql.antt =====
-- The scanners of src/internal/policy/policy.go that clean a query before names are taken from it.
pub mod Blanks
use dbexplain.Prelude.{
  any, String, map, ℕ, Bool, true, false, not, ◌==◌, ◌&&◌, ◌||◌, leb, List, [], ◌∷◌, Option, none,
  some, is_empty, if◌then◌else◌,
}
use dbexplain.Prelude.Text.{Text, codes, trim_space, to_upper, one_of, upper_byte}

-- The four bytes that the program itself counts as white space.
abbrev pub is_blank : ℕ → Bool
is_blank c = c == 32 || c == 9 || c == 10 || c == 13

-- The loop of `normalizeWhitespace`, with `inSpace`.
unfoldable pub collapse : Bool → Text → Text
collapse in_space [] = []
collapse in_space (c ∷ s) =
    let blank = is_blank c in
    let rest = collapse blank s in
    if blank then (if in_space then rest else 32 ∷ rest) else c ∷ rest

unfoldable pub normalize_whitespace : Text → Text
unfolding collapse
normalize_whitespace s = trim_space (collapse false s)

-- What stands where the outer loop of `stripSQLComments` goes on: in the text, in a line comment,
-- or in a block comment.
pub data Mode : Type 0 where
  text line block : Mode

-- A block comment that is not closed takes the rest of the text.
unfoldable pub strip_from : Mode → Text → Text
strip_from text [] = []
strip_from text (c ∷ []) = c ∷ []
strip_from text (c ∷ d ∷ s) =
    let in_line = strip_from line s in
    let in_block = strip_from block s in
    let go_on = strip_from text (d ∷ s) in
    if c == b'-' && d == b'-'
    then in_line
    else if c == b'/' && d == b'*'
    then in_block
    else c ∷ go_on
strip_from line [] = []
strip_from line (c ∷ s) =
    let behind = strip_from text s in
    let inside = strip_from line s in if c == 10 then behind else inside
strip_from block [] = []
strip_from block (c ∷ []) = []
strip_from block (c ∷ d ∷ s) =
    let behind = strip_from text s in
    let inside = strip_from block (d ∷ s) in if c == b'*' && d == b'/' then behind else inside

unfoldable pub strip_sql_comments : Text → Text
unfolding strip_from
strip_sql_comments sql = strip_from text sql

-- The byte that closes a quoted identifier.
abbrev pub closing : ℕ → Option ℕ
closing c =
    if c == b'`'
    then some b'`'
    else if c == 34
    then some 34
    else if c == b'['
    then some b']'
    else none

-- `normalizeIdentifiers`: the quotes of a quoted identifier go, and a quote that is never closed
-- stays. Inside one, `some q` is the quote that ends it.
unfoldable pub unquote : Option ℕ → Text → Text
unquote mode [] = []
unquote none (c ∷ s) =
    let plain = unquote none s in
    elim (closing c) [
      | none ↦ c ∷ plain
      | some q ↦
          let inside = unquote (some q) s in if any (λ x. x == q) s then inside else c ∷ plain
    ]
unquote (some q) (c ∷ s) =
    let outside = unquote none s in
    let inside = unquote (some q) s in if c == q then outside else c ∷ inside

unfoldable pub normalize_identifiers : Text → Text
unfolding unquote
normalize_identifiers sql = unquote none sql

abbrev sql_keywords : List String
sql_keywords =
    "SELECT" ∷ "FROM" ∷ "WHERE" ∷ "AND" ∷ "OR" ∷ "NOT" ∷ "IN" ∷ "AS" ∷ "ON" ∷ "JOIN" ∷ "LEFT"
    ∷ "RIGHT" ∷ "INNER" ∷ "OUTER" ∷ "FULL" ∷ "CROSS" ∷ "ORDER" ∷ "GROUP" ∷ "BY" ∷ "HAVING" ∷ "LIMIT"
    ∷ "OFFSET" ∷ "INSERT" ∷ "UPDATE" ∷ "DELETE" ∷ "INTO" ∷ "VALUES" ∷ "SET" ∷ "CREATE" ∷ "ALTER"
    ∷ "DROP" ∷ "TABLE" ∷ "INDEX" ∷ "VIEW" ∷ "DISTINCT" ∷ "ALL" ∷ "UNION" ∷ "EXCEPT" ∷ "INTERSECT"
    ∷ "CASE" ∷ "WHEN" ∷ "THEN" ∷ "ELSE" ∷ "END" ∷ "TRUE" ∷ "FALSE" ∷ "NULL" ∷ "IS" ∷ "LIKE"
    ∷ "BETWEEN" ∷ "COUNT" ∷ "SUM" ∷ "AVG" ∷ "MIN" ∷ "MAX" ∷ "EXISTS" ∷ "ANY" ∷ "SOME" ∷ "CAST"
    ∷ "COALESCE" ∷ "NULLIF" ∷ []

-- `isSQLKeyword`
unfoldable pub is_sql_keyword : Text → Bool
unfolding upper_byte
is_sql_keyword s = one_of (to_upper s) (map codes sql_keywords)

-- `isNumeric`
abbrev all_digits : Text → Bool
all_digits [] = true
all_digits (c ∷ s) = leb b'0' c && leb c b'9' && all_digits s

unfoldable pub is_numeric : Text → Bool
is_numeric s = all_digits s && not (is_empty s)
