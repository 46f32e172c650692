-- ===== src/Examples/SqlGuard.antt =====
-- The guard of src/internal/sqlguard/sqlguard.go on a few texts, with a parser that refuses all.
use dbexplain.Prelude.{◌≡◌, ◌≢◌, refl, ◌⊎◌, [], ◌∷◌, Option, none, arith}
use dbexplain.Prelude.Text.{Text, codes, to_upper, upper_byte}
use dbexplain.SqlAst.{Stmt}
use dbexplain.SqlGuard.Words.{split_statements, write_ops, read_ops}
use dbexplain.SqlGuard.Limit.{auto_limit}
use dbexplain.SqlGuard.Limit.Appended.{Limits, auto_limit-Limits}
use dbexplain.SqlGuard.Validate.{
  validate, accepted, violation, write_operation, out_of_fuel, panicked,
}
use dbexplain.SqlGuard.Validate.Laws.{Hits, validate-returns}
use dbexplain.SqlGuard.Validate.Safety.{Reads, validate-Reads, validate_diverges}

abbrev refuses : Text → Option Stmt
refuses sql = none

explain_accepted : validate refuses 40 (codes "EXPLAIN ANALYZE SHOW TABLES;") ≡ accepted
unfolding validate write_ops read_ops
explain_accepted = refl

explain_write_rejected :
    validate refuses 40 (codes "explain (analyze) insert into t")
    ≡ violation (write_operation (codes "INSERT"))
unfolding validate write_ops read_ops
explain_write_rejected = refl

-- A text of semicolons alone has no first statement.
semicolon_panics : validate refuses 40 (codes " ; ") ≡ panicked
unfolding validate
semicolon_panics = refl

validate-Reads_example : Reads refuses (codes "EXPLAIN ANALYZE SHOW TABLES;")
validate-Reads_example =
    validate-Reads refuses 40 (codes "EXPLAIN ANALYZE SHOW TABLES;") explain_accepted

validate-returns_example :
    (validate refuses 20 (codes "EXPLAIN SELECT 1") ≢ out_of_fuel) ⊎ Hits (codes "EXPLAIN SELECT 1")
validate-returns_example = validate-returns refuses 20 (codes "EXPLAIN SELECT 1") (omega arith)

paren_is_statement : split_statements (codes "(EXPLAIN SELECT 1)") ≡ codes "(EXPLAIN SELECT 1)" ∷ []
unfolding split_statements
paren_is_statement = refl

paren_is_explain :
    to_upper (dbexplain.SqlGuard.Words.first_word (codes "(EXPLAIN SELECT 1)")) ≡ codes "EXPLAIN"
unfolding upper_byte
paren_is_explain = refl

validate_diverges_example : validate refuses 1000 (codes "(EXPLAIN SELECT 1)") ≡ out_of_fuel
validate_diverges_example =
    validate_diverges refuses 1000 (codes "EXPLAIN SELECT 1)") refl paren_is_statement
      paren_is_explain

auto_limit-Limits_example :
    Limits
      (codes "select f(x) from t;")
      100
      none
      (auto_limit refuses (codes " select f(x) from t;") 100)
auto_limit-Limits_example = auto_limit-Limits refuses (codes " select f(x) from t;") 100

appended :
    auto_limit refuses (codes " select f(x) from t;") 100 ≡ codes "select f(x) from t LIMIT 100"
unfolding auto_limit
appended = refl

-- The end of a longer word counts as LIMIT.
word_end_limits :
    auto_limit refuses (codes "select a from t where credit_limit > 5") 100
    ≡ codes "select a from t where credit_limit > 5"
unfolding auto_limit
word_end_limits = refl
