-- ===== src/SqlAst/Expression/Rounds.antt =====
-- The loops over operators of src/internal/sqlast/parser.go, on tokens that a grammar prints: where a level
-- ends, what it means that a parser reads a tree back, and how a loop goes on behind a right operand.
use dbexplain.Prelude.{
  ℕ, zero, suc, ◌<◌, ◌==◌, false, List, ◌∷◌, Option, none, some, length, ◌≡◌, refl, ◌∙◌, arith,
}
use dbexplain.Prelude.Text.{Text}
use dbexplain.SqlAst.{Expr, binary_expr}
use dbexplain.SqlAst.TokenType
use dbexplain.SqlAst.Lexer.{Token}
use dbexplain.SqlAst.Result.{ok}
use dbexplain.SqlAst.Parsing.{Parser, peek, operator_rounds, operators}
use dbexplain.SqlAst.Parsing.Consumes.{rounds-none, rounds-some}
use dbexplain.SqlAst.Expression.{logical_op, add_sub_op, mul_div_op, comparison_op}
use dbexplain.SqlAst.Expression.Grammar.{Operator, sign}

-- The types of the tokens behind which a level ends.
abbrev pub EndsOperand : ℕ → Type 0
EndsOperand type = ((type == TokenType.lparen) ≡ false) × ((type == TokenType.dot) ≡ false)

abbrev pub EndsProduct : ℕ → Type 0
EndsProduct type = EndsOperand type × (mul_div_op type ≡ none)

abbrev pub EndsSum : ℕ → Type 0
EndsSum type = EndsProduct type × (add_sub_op type ≡ none)

abbrev pub EndsComparison : ℕ → Type 0
EndsComparison type =
    EndsSum type
    × ((comparison_op type ≡ none)
        × (((type == TokenType.not) ≡ false)
            × (((type == TokenType.in_) ≡ false)
                × (((type == TokenType.between) ≡ false) × ((type == TokenType.is) ≡ false)))))

abbrev pub EndsCondition : ℕ → Type 0
EndsCondition type = EndsComparison type × (logical_op type ≡ none)

-- In front of any tokens at which it ends, the parser reads what `print` puts there as `e`.
abbrev pub Reads : (ℕ → Type 0) → Parser Expr → (List Token → List Token) → Expr → Type 0
Reads Ends p print e =
    (ts : List Token)
    → Ends (peek ts)
    → (length ts < length (print ts)) × (p (print ts) ≡ ok (e, ts))

-- The same, for the start of a loop over operators that is at `e` then.
abbrev pub Reaches :
    (ℕ → Type 0) → (ℕ → Option Text) → Parser Expr → (List Token → List Token) → Expr → Type 0
Reaches Ends op p print e =
    (ts : List Token)
    → Ends (peek ts)
    → (length ts < length (print ts))
      × ((m : ℕ) × ((length ts < m) × (operators op p (print ts) ≡ operator_rounds m op p e ts)))

module _ (Ends : ℕ → Type 0) (op : ℕ → Option Text) (p : Parser Expr) where
  pub Reads-Reaches :
      (print : List Token → List Token) (e : Expr)
      → Reads Ends p print e
      → Reaches Ends op p print e
  unfolding operators
  Reads-Reaches print e h ts k =
      let (longer, read) = h ts k in (longer, (suc (length ts), (omega arith, rw read refl)))

  round :
      (o : Operator) (e e' : Expr) (ts rest : List Token) (m : ℕ)
      → op o.type ≡ some o.text
      → p rest ≡ ok (e', ts)
      → operator_rounds (suc m) op p e (sign o ∷ rest)
        ≡ operator_rounds m op p (binary_expr e o.text e') ts
  round o e e' ts rest m known read =
      rounds-some op p m e (sign o ∷ rest) o.text known ∙ rw read refl

  pub Reaches-next :
      (o : Operator) (print right : List Token → List Token) (e e' : Expr)
      → op o.type ≡ some o.text
      → Ends o.type
      → Reaches Ends op p print e
      → Reads Ends p right e'
      → Reaches Ends op p (λ ts. print (sign o ∷ right ts)) (binary_expr e o.text e')
  Reaches-next o print right e e' known ends h g ts k =
      let (longer, (m, (enough, start))) = h (sign o ∷ right ts) ends in
      let (longer', read) = g ts k in (omega arith, go m enough start longer' read)
    where
      go :
          (m : ℕ)
          → suc (length (right ts)) < m
          → operators op p (print (sign o ∷ right ts))
            ≡ operator_rounds m op p e (sign o ∷ right ts)
          → length ts < length (right ts)
          → p (right ts) ≡ ok (e', ts)
          → (m : ℕ) × ((length ts < m)
              × (operators op p (print (sign o ∷ right ts))
                  ≡ operator_rounds m op p (binary_expr e o.text e') ts))
      go zero enough start longer' read = absurd (omega arith)
      go (suc m) enough start longer' read =
          (m, (omega arith, start ∙ round o e e' ts (right ts) m known read))

  pub Reaches-Reads :
      (print : List Token → List Token) (e : Expr)
      → Reaches Ends op p print e
      → Reads (λ type. Ends type × (op type ≡ none)) (operators op p) print e
  Reaches-Reads print e h ts (k, stop) =
      let (longer, (m, (enough, start))) = h ts k in (longer, go m enough start)
    where
      go :
          (m : ℕ)
          → length ts < m
          → operators op p (print ts) ≡ operator_rounds m op p e ts
          → operators op p (print ts) ≡ ok (e, ts)
      go zero enough start = absurd (omega arith)
      go (suc m) enough start = start ∙ rounds-none op p m e ts stop
