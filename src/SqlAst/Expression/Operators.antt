-- ===== src/SqlAst/Expression/Operators.antt =====
-- The operators of the levels of src/internal/sqlast/parser.go: each level knows its own, and ends at those
-- of the levels above it.
use dbexplain.Prelude.{◌<◌, ◌==◌, Bool, true, false, List, ◌∷◌, some, length, ◌≡◌, refl, arith}
use dbexplain.SqlAst.TokenType
use dbexplain.SqlAst.Lexer.{Token}
use dbexplain.SqlAst.Parsing.{peek}
use dbexplain.SqlAst.Expression.{logical_op, add_sub_op, mul_div_op, comparison_op}
use dbexplain.SqlAst.Expression.Grammar.{
  Factor, Term, Relation, Connective, factor, term, relation, connective, Operand, Product, Sum,
  sign, print_operand, print_product, print_sum, null_marks, times, over, plus, less, equal,
  unequal, below, above, at_most, at_least, like, and, or, name, qualified, number, text, negative,
  parens, operand, multiply, product, add,
}
use dbexplain.SqlAst.Expression.Rounds.{EndsOperand, EndsProduct, EndsSum, EndsComparison}

pub known_factor : (o : Factor) → mul_div_op (factor o).type ≡ some (factor o).text
unfolding mul_div_op
known_factor times = refl
known_factor over = refl

pub ends_at_factor : (o : Factor) → EndsOperand (factor o).type
ends_at_factor times = (refl, refl)
ends_at_factor over = (refl, refl)

pub known_term : (o : Term) → add_sub_op (term o).type ≡ some (term o).text
unfolding add_sub_op
known_term plus = refl
known_term less = refl

pub ends_at_term : (o : Term) → EndsProduct (term o).type
unfolding mul_div_op
ends_at_term plus = ((refl, refl), refl)
ends_at_term less = ((refl, refl), refl)

pub ends_at_relation : (o : Relation) → EndsSum (relation o).type
unfolding mul_div_op add_sub_op
ends_at_relation equal = (((refl, refl), refl), refl)
ends_at_relation unequal = (((refl, refl), refl), refl)
ends_at_relation below = (((refl, refl), refl), refl)
ends_at_relation above = (((refl, refl), refl), refl)
ends_at_relation at_most = (((refl, refl), refl), refl)
ends_at_relation at_least = (((refl, refl), refl), refl)
ends_at_relation like = (((refl, refl), refl), refl)

pub relation_no_not : (o : Relation) → ((relation o).type == TokenType.not) ≡ false
relation_no_not equal = refl
relation_no_not unequal = refl
relation_no_not below = refl
relation_no_not above = refl
relation_no_not at_most = refl
relation_no_not at_least = refl
relation_no_not like = refl

pub length-null_marks : (b : Bool) (ts : List Token) → length ts < length (null_marks b ts)
unfolding null_marks
length-null_marks true ts = omega arith
length-null_marks false ts = omega arith

pub known_connective : (o : Connective) → logical_op (connective o).type ≡ some (connective o).text
unfolding logical_op
known_connective and = refl
known_connective or = refl

pub ends_at_connective : (o : Connective) → EndsComparison (connective o).type
unfolding mul_div_op add_sub_op comparison_op
ends_at_connective and = ((((refl, refl), refl), refl), (refl, (refl, (refl, (refl, refl)))))
ends_at_connective or = ((((refl, refl), refl), refl), (refl, (refl, (refl, (refl, refl)))))

starts_operand :
    (o : Operand) (ts : List Token) → (peek (print_operand o ts) == TokenType.not) ≡ false
unfolding print_operand
starts_operand (name c) ts = refl
starts_operand (qualified t c) ts = refl
starts_operand (number n) ts = refl
starts_operand (text s) ts = refl
starts_operand (negative o) ts = refl
starts_operand (parens c) ts = refl

starts_product :
    (p : Product) (ts : List Token) → (peek (print_product p ts) == TokenType.not) ≡ false
unfolding print_product
starts_product (operand o) ts = starts_operand o ts
starts_product (multiply l o r) ts = starts_product l (sign (factor o) ∷ print_operand r ts)

pub starts_sum : (s : Sum) (ts : List Token) → (peek (print_sum s ts) == TokenType.not) ≡ false
unfolding print_sum
starts_sum (product p) ts = starts_product p ts
starts_sum (add l o r) ts = starts_sum l (sign (term o) ∷ print_product r ts)
