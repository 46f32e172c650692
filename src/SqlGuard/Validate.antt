-- ===== src/SqlGuard/Validate.antt =====
-- `Validate` and `validateCTE` of src/internal/sqlguard/sqlguard.go. `parse` is sqlast.Parse, `none`
-- where it returns an error. The recursion on an EXPLAIN statement runs on fuel.
pub mod Laws
pub mod Safety
use dbexplain.Prelude.{
  ℕ, zero, suc, Bool, ◌&&◌, List, [], ◌∷◌, Option, none, some, is_empty, if◌then◌else◌, length, ltb,
  ◌≡◌, refl,
}
use dbexplain.Prelude.Text.{Text, codes, trim_space, to_upper, upper_byte, one_of, text_eq}
use dbexplain.SqlAst.{Stmt, select_stmt, union_stmt}
use dbexplain.SqlGuard.Words.{split_statements, first_word, write_ops, read_ops}
use dbexplain.SqlGuard.Explain.{strip_explain_prefix}
use dbexplain.SqlGuard.Cte.{contains_cte_write}
use dbexplain.SqlGuard.Into.{is_select_into}

-- The reason of an `ErrReadOnlyViolation`.
pub data Reason : Type 0 where
  empty_query explain_without_inner cte_write select_into : Reason
  multiple_statements : ℕ → Reason
  write_operation : Text → Reason
  unknown_verb : Text → Reason

-- `accepted` is the nil error, and `panicked` an index out of range; `out_of_fuel` belongs to the
-- model only.
pub data Verdict : Type 0 where
  accepted panicked : Verdict
  violation : Reason → Verdict
  out_of_fuel : Verdict

-- `validateCTE`
pub validate_cte : Text → Verdict
unfolding contains_cte_write
validate_cte normalized = if contains_cte_write normalized then violation cte_write else accepted

-- The fallback on the first word, where the parser fails. WITH does not come here.
pub validate_word : Text → Text → Verdict
unfolding contains_cte_write is_select_into
validate_word token normalized =
    if one_of token write_ops
    then violation (write_operation token)
    else if one_of token read_ops
    then (if text_eq token (codes "WITH") && contains_cte_write normalized
        then violation cte_write
        else if text_eq token (codes "SELECT") && is_select_into normalized
        then violation select_into
        else accepted)
    else violation (unknown_verb token)

pub validate_parsed : Text → Stmt → Verdict
unfolding is_select_into
validate_parsed sql (select_stmt s) = if is_select_into sql then violation select_into else accepted
validate_parsed sql (union_stmt left right all) = accepted

module _ (parse : Text → Option Stmt) where
  -- What follows the cases of WITH and EXPLAIN.
  pub validate_plain : Text → Text → Text → Verdict
  unfolding validate_word validate_parsed
  validate_plain sql token normalized = elim (parse sql) [
    | some stmt ↦ validate_parsed sql stmt
    | none ↦ validate_word token normalized
  ]

  -- The pipeline on the first statement; `again` is the verdict on the inner statement.
  pub validate_first : Text → Text → Text → Verdict → Verdict
  unfolding validate_plain validate_cte upper_byte
  validate_first sql normalized inner again =
      let token = to_upper (first_word normalized) in
      if text_eq token (codes "WITH")
      then validate_cte normalized
      else if text_eq token (codes "EXPLAIN")
      then (if is_empty inner then violation explain_without_inner else again)
      else validate_plain sql token normalized

  -- The recursive call, for a text that has a first statement.
  pub validate_statements : (Text → Verdict) → Text → List Text → Verdict
  unfolding validate_first strip_explain_prefix
  validate_statements again sql [] = panicked
  validate_statements again sql (s ∷ []) =
      let normalized = trim_space s in
      let inner = strip_explain_prefix normalized in
      validate_first sql normalized inner (again inner)
  validate_statements again sql (s ∷ t ∷ ss) = violation (multiple_statements (length (s ∷ t ∷ ss)))

  unfoldable pub validate : ℕ → Text → Verdict
  unfolding validate_statements split_statements
  validate zero raw = out_of_fuel
  validate (suc f) raw =
      let sql = trim_space raw in
      let again : Text → Verdict = validate f in
      if is_empty sql
      then violation empty_query
      else validate_statements again sql (split_statements sql)
