-- ===== src/SqlAst/SelectClause/Consumes.antt =====
-- What `parseSelectList` and `parseSingleSelect` of src/internal/sqlast/parser.go take and give, given
-- what an expression takes.
use dbexplain.Prelude.{
  ℕ, ◌≤◌, ◌==◌, ◌&&◌, Bool, true, false, List, [], ◌∷◌, All, drop, length, length-drop-le, is_empty,
  if◌then◌else◌, Bool-cases, ◌≡◌, ◌⊎◌, inl, inr, refl, arith,
}
use dbexplain.Prelude.Text.{Text, codes}
use dbexplain.SqlAst.{
  Expr, SelectExprs, JoinClauses, no_columns, column, no_joins, join, absent, present,
}
use dbexplain.SqlAst.TokenType
use dbexplain.SqlAst.Lexer.{Token}
use dbexplain.SqlAst.Result.{ok, Ensures-bind, Ensures-if}
use dbexplain.SqlAst.Parsing.{peek, expect, optional, comma_list}
use dbexplain.SqlAst.Parsing.Consumes.{
  Any, Gives, Gives-weaken, drop-Gives, optional-Gives, Some, comma_list-Gives, expect-Gives,
}
use dbexplain.SqlAst.Clause.{parse_column_ref}
use dbexplain.SqlAst.Clause.Consumes.{parse_column_ref-Gives}
use dbexplain.SqlAst.SelectClause.{
  on_columns, parse_distinct_on, implicit_alias, ends_alias, parse_alias, select_columns, join_type,
  Joined, join_clauses,
}

on_columns-Gives : (n : ℕ) → Gives Any 0 n on_columns
unfolding on_columns
on_columns-Gives n ts l =
    Ensures-bind _ _ (expect TokenType.lparen ts) _ (expect-Gives n TokenType.lparen ts l)
      λ (_, r0) (s0, _).
        Ensures-bind _ _ (comma_list parse_column_ref r0) _
          (comma_list-Gives Any n parse_column_ref (parse_column_ref-Gives n) r0 (omega arith))
          λ (cols, r1) (s1, _).
            Ensures-bind _ _ (expect TokenType.rparen r1) _
              (expect-Gives n TokenType.rparen r1 (omega arith))
              λ (_, r2) (s2, _). (omega arith, tt)

pub distinct-Gives : (n : ℕ) → Gives Any 0 n parse_distinct_on
unfolding parse_distinct_on
distinct-Gives n =
    optional-Gives Any n TokenType.distinct (optional TokenType.on on_columns []) []
      (optional-Gives Any n TokenType.on on_columns [] (on_columns-Gives n) tt) tt

implicit_alias-Gives : (n : ℕ) → Gives Any 0 n implicit_alias
unfolding implicit_alias
implicit_alias-Gives n [] l = (omega arith, tt)
implicit_alias-Gives n (t ∷ ts) l =
    Ensures-if _ (t.type == TokenType.ident && ends_alias (peek ts)) (ok (t.value, ts))
      (ok ([], t ∷ ts)) (λ _. (omega arith, tt)) (λ _. (omega arith, tt))

pub alias-Gives : (n : ℕ) → Gives Any 0 n parse_alias
unfolding parse_alias
alias-Gives n ts l =
    Ensures-if _ (peek ts == TokenType.as_) (expect TokenType.ident (drop 1 ts)) (implicit_alias ts)
      (λ _.
        drop-Gives Any n (expect TokenType.ident) ts
          (Gives-weaken Any Any 1 0 n (expect TokenType.ident) (omega arith) (λ _ _. tt)
            (expect-Gives n TokenType.ident))
          l)
      (λ _. implicit_alias-Gives n ts l)

-- A kind of join that the executor of file queries knows.
abbrev pub IsJoinType : Text → Type 0
IsJoinType type = (type ≡ codes "INNER") ⊎ ((type ≡ codes "LEFT") ⊎ (type ≡ codes "RIGHT"))

skip_outer_le : (b : Bool) (us : List Token) → length (if b then drop 1 us else us) ≤ length us
skip_outer_le true us = length-drop-le 1 us
skip_outer_le false us = omega arith

pub join_type_le : (ts : List Token) → length (join_type ts).1 ≤ length ts
unfolding join_type
join_type_le ts = elim (Bool-cases (peek ts == TokenType.left)) [
  | inl b ↦ rw b (
      omega (
        arith,
        length-drop-le 1 ts,
        skip_outer_le (peek (drop 1 ts) == TokenType.outer) (drop 1 ts),
      ))
  | inr b ↦ elim (Bool-cases (peek ts == TokenType.right)) [
    | inl c ↦
        rw (b, c)
          (omega (
            arith,
            length-drop-le 1 ts,
            skip_outer_le (peek (drop 1 ts) == TokenType.outer) (drop 1 ts),
          ))
    | inr c ↦ elim (Bool-cases (peek ts == TokenType.join)) [
      | inl d ↦ rw (b, c, d) (omega arith)
      | inr d ↦ rw (b, c, d) (omega arith)
    ]
  ]
]

unequal : true ≡ false → ⊥
unequal e = cc

pub join_type-known :
    (ts : List Token) → is_empty (join_type ts).0 ≡ false → IsJoinType (join_type ts).0
unfolding join_type
join_type-known ts e = elim (Bool-cases (peek ts == TokenType.left)) [
  | inl b ↦ rw b (inr (inl refl))
  | inr b ↦ elim (Bool-cases (peek ts == TokenType.right)) [
    | inl c ↦ rw (b, c) (inr (inr refl))
    | inr c ↦ elim (Bool-cases (peek ts == TokenType.join)) [
      | inl d ↦ rw (b, c, d) (inl refl)
      | inr d ↦ absurd (unequal (rw (b, c, d) at e))
    ]
  ]
]

abbrev pub IsKnown : Joined → Type 0
IsKnown j = IsJoinType j.type

-- Every join has a kind and an ON condition.
abbrev pub AreJoins : JoinClauses → Type 0
AreJoins no_joins = Unit
AreJoins (join table alias absent type js) = ⊥
AreJoins (join table alias (present on) type js) = IsJoinType type × AreJoins js

pub join_clauses-AreJoins : (js : List Joined) → All IsKnown js → AreJoins (join_clauses js)
join_clauses-AreJoins [] h = tt
join_clauses-AreJoins (j ∷ js) (k, h) = (k, join_clauses-AreJoins js h)

abbrev pub AreColumns : SelectExprs → Type 0
AreColumns no_columns = ⊥
AreColumns (column e alias l) = Unit

pub select_columns-AreColumns :
    (l : List (Expr × Text)) → Some Any l → AreColumns (select_columns l)
select_columns-AreColumns [] h = h
select_columns-AreColumns (x ∷ l) h = tt
