-- ===== src/SqlGuard/Limit.antt =====
-- `AutoLimit` and `hasOuterLimit` of src/internal/sqlguard/sqlguard.go.
pub mod Outer
pub mod Decimal
pub mod Trimmed
pub mod Found
pub mod Appended
use dbexplain.Prelude.{
  ℕ, zero, suc, ◌+◌, ◌-◌, ◌/◌, ◌%◌, Bool, true, false, not, ◌==◌, ◌&&◌, ◌||◌, List, [], ◌∷◌, ◌++◌,
  map, Option, none, some, is_empty, any, if◌then◌else◌, ltb, ◌≡◌, refl,
}
use dbexplain.Prelude.Text.{
  Text, codes, trim_space, to_upper, upper_byte, one_of, contains, trim_right, text_eq,
}
use dbexplain.SqlAst.{Stmt, SelectStmt, select_stmt, union_stmt, limit}
use dbexplain.Policy.Sql.{is_blank}
use dbexplain.SqlGuard.Words.{first_word}

-- What the loop of `hasOuterLimit` writes: the bytes outside of parentheses.
unfoldable pub outer_from : ℕ → Text → Text
outer_from depth [] = []
outer_from depth (c ∷ s) =
    let deeper = outer_from (suc depth) s in
    let shallower = outer_from (depth - 1) s in
    let same = outer_from depth s in
    if c == b'('
    then deeper
    else if c == b')'
    then shallower
    else if depth == 0
    then c ∷ same
    else same

-- strings.HasSuffix
abbrev pub has_suffix : Text → Text → Bool
has_suffix [] p = is_empty p
has_suffix (c ∷ s) p = text_eq (c ∷ s) p || has_suffix s p

-- LIMIT and each of the blanks that `hasOuterLimit` looks for behind it.
abbrev pub limit_words : List Text
limit_words = map (λ c. codes "LIMIT" ++ c ∷ []) (32 ∷ 9 ∷ 10 ∷ 13 ∷ [])

unfoldable pub has_outer_limit : Text → Bool
unfolding outer_from
has_outer_limit upper =
    let outer = outer_from 0 upper in
    any (contains outer) limit_words || has_suffix (trim_space outer) (codes "LIMIT")

-- strings.TrimRight with the cutset "; \t\r\n"
abbrev pub cutset : ℕ → Bool
cutset c = c == b';' || is_blank c

abbrev pub cut_cons : ℕ → Text → Text
cut_cons c [] = if cutset c then [] else c ∷ []
cut_cons c (d ∷ s) = c ∷ d ∷ s

abbrev pub trim_cutset : Text → Text
trim_cutset [] = []
trim_cutset (c ∷ s) = cut_cons c (trim_cutset s)

-- strings.TrimSuffix with ";"
abbrev pub trim_semicolon : Text → Text
trim_semicolon [] = []
trim_semicolon (c ∷ []) = if c == b';' then [] else c ∷ []
trim_semicolon (c ∷ d ∷ s) = c ∷ trim_semicolon (d ∷ s)

-- The digits of a number, in front of `acc`; the fuel bounds their count.
abbrev pub digits : ℕ → ℕ → Text → Text
digits zero n acc = acc
digits (suc f) n acc =
    let rest = digits f (n / 10) ((48 + n % 10) ∷ acc) in
    if n / 10 == 0 then (48 + n % 10) ∷ acc else rest

-- %d
unfoldable pub decimal : ℕ → Text
decimal n = digits (suc n) n []

-- fmt.Sprintf("%s LIMIT %d", sql, maxRows)
pub with_limit : Text → ℕ → Text
unfolding decimal
with_limit sql max_rows = sql ++ (codes " LIMIT " ++ decimal max_rows)

-- The branch of a statement that the parser reads, on the trimmed text.
pub auto_limit_parsed : Text → ℕ → Stmt → Text
unfolding with_limit has_outer_limit upper_byte
auto_limit_parsed sql max_rows (select_stmt s) =
    if ltb 0 (limit s) || has_outer_limit (to_upper sql)
    then sql
    else with_limit (trim_cutset sql) max_rows
auto_limit_parsed sql max_rows (union_stmt left right all) =
    if ltb 0 (limit left) then sql else with_limit (trim_cutset sql) max_rows

abbrev pub limitable : List Text
limitable = map codes ("SELECT" ∷ "WITH" ∷ "EXPLAIN" ∷ [])

-- The branch of a text that the parser refuses.
pub auto_limit_word : Text → ℕ → Text
unfolding with_limit has_outer_limit upper_byte
auto_limit_word sql max_rows =
    if not (one_of (to_upper (first_word sql)) limitable) || has_outer_limit (to_upper sql)
    then sql
    else with_limit (trim_space (trim_semicolon sql)) max_rows

unfoldable pub auto_limit : (Text → Option Stmt) → Text → ℕ → Text
unfolding auto_limit_parsed auto_limit_word
auto_limit parse raw max_rows =
    let sql = trim_space raw in
    elim (parse sql) [
      | some stmt ↦ auto_limit_parsed sql max_rows stmt
      | none ↦ auto_limit_word sql max_rows
    ]

limit_added :
    auto_limit (λ _. none) (codes "select (select 1 limit 1);") 100
    ≡ codes "select (select 1 limit 1) LIMIT 100"
unfolding auto_limit
limit_added = refl
