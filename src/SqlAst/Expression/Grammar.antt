-- ===== src/SqlAst/Expression/Grammar.antt =====
-- The grammar of the expressions that src/internal/sqlast/parser.go documents at parseLogical,
-- parseComparison, parseAddSub, parseMulDiv and parsePrimary, without functions, NOT and IN: its trees,
-- their tokens, and the expressions that they mean. The levels lean to the left.
use dbexplain.Prelude.{ℕ, suc, ◌+◌, Bool, true, false, List, [], ◌∷◌, if◌then◌else◌}
use dbexplain.Prelude.Text.{Text, codes}
use dbexplain.SqlAst.{
  Expr, column_ref, number_lit, string_lit, binary_expr, unary_expr, between_expr,
}
use dbexplain.SqlAst.TokenType
use dbexplain.SqlAst.Lexer.{Token}

-- An operator: the type of its token and its text.
pub record Operator : Type 0 where
  pub type : ℕ
  pub text : Text

pub data Factor : Type 0 where
  times over : Factor

pub data Term : Type 0 where
  plus less : Term

pub data Relation : Type 0 where
  equal unequal below above at_most at_least like : Relation

pub data Connective : Type 0 where
  and or : Connective

abbrev operator : ℕ → Text → Operator
operator type text = record { type = type; text = text }

abbrev pub factor : Factor → Operator
factor times = operator TokenType.star (codes "*")
factor over = operator TokenType.slash (codes "/")

abbrev pub term : Term → Operator
term plus = operator TokenType.plus (codes "+")
term less = operator TokenType.minus (codes "-")

abbrev pub relation : Relation → Operator
relation equal = operator TokenType.eq (codes "=")
relation unequal = operator TokenType.ne (codes "!=")
relation below = operator TokenType.lt (codes "<")
relation above = operator TokenType.gt (codes ">")
relation at_most = operator TokenType.le (codes "<=")
relation at_least = operator TokenType.ge (codes ">=")
relation like = operator TokenType.like (codes "LIKE")

abbrev pub connective : Connective → Operator
connective and = operator TokenType.and (codes "AND")
connective or = operator TokenType.or (codes "OR")

mutual
  pub data Operand : Type 0 where
    name : Text → Operand
    qualified : Text → Text → Operand
    number : Text → Operand
    text : Text → Operand
    negative : Operand → Operand
    parens : Condition → Operand

  pub data Product : Type 0 where
    operand : Operand → Product
    multiply : Product → Factor → Operand → Product

  pub data Sum : Type 0 where
    product : Product → Sum
    add : Sum → Term → Product → Sum

  pub data Comparison : Type 0 where
    sum : Sum → Comparison
    compare : Sum → Relation → Sum → Comparison
    between : Sum → Sum → Sum → Comparison
    is_null : Sum → Bool → Comparison

  pub data Condition : Type 0 where
    comparison : Comparison → Condition
    connect : Condition → Connective → Comparison → Condition

-- A token, without a position.
abbrev pub mark : ℕ → Text → Token
mark type value = record { type = type; value = value; pos = 0 }

abbrev pub sign : Operator → Token
sign o = mark o.type o.text

-- NULL or NOT NULL
unfoldable pub null_marks : Bool → List Token → List Token
null_marks true ts = mark TokenType.not (codes "NOT") ∷ mark TokenType.null (codes "NULL") ∷ ts
null_marks false ts = mark TokenType.null (codes "NULL") ∷ ts

-- The tokens of a tree, in front of others.
unfoldable mutual
  unfolding null_marks

  pub print_operand : Operand → List Token → List Token
  print_operand (name c) ts = mark TokenType.ident c ∷ ts
  print_operand (qualified t c) ts =
      mark TokenType.ident t ∷ mark TokenType.dot (codes ".") ∷ mark TokenType.ident c ∷ ts
  print_operand (number n) ts = mark TokenType.number n ∷ ts
  print_operand (text s) ts = mark TokenType.string s ∷ ts
  print_operand (negative o) ts = mark TokenType.minus (codes "-") ∷ print_operand o ts
  print_operand (parens c) ts =
      mark TokenType.lparen (codes "(") ∷ print_condition c (mark TokenType.rparen (codes ")") ∷ ts)

  pub print_product : Product → List Token → List Token
  print_product (operand o) ts = print_operand o ts
  print_product (multiply l o r) ts = print_product l (sign (factor o) ∷ print_operand r ts)

  pub print_sum : Sum → List Token → List Token
  print_sum (product p) ts = print_product p ts
  print_sum (add l o r) ts = print_sum l (sign (term o) ∷ print_product r ts)

  pub print_comparison : Comparison → List Token → List Token
  print_comparison (sum s) ts = print_sum s ts
  print_comparison (compare l o r) ts = print_sum l (sign (relation o) ∷ print_sum r ts)
  print_comparison (between s low high) ts = print_sum s (
      mark TokenType.between (codes "BETWEEN")
      ∷ print_sum low (mark TokenType.and (codes "AND") ∷ print_sum high ts))
  print_comparison (is_null s negated) ts =
      print_sum s (mark TokenType.is (codes "IS") ∷ null_marks negated ts)

  pub print_condition : Condition → List Token → List Token
  print_condition (comparison c) ts = print_comparison c ts
  print_condition (connect l o r) ts =
      print_condition l (sign (connective o) ∷ print_comparison r ts)

abbrev binary : Expr → Operator → Expr → Expr
binary l o r = binary_expr l o.text r

-- The expression that a tree means.
unfoldable mutual
  pub operand_expr : Operand → Expr
  operand_expr (name c) = column_ref (record { table = []; col = c })
  operand_expr (qualified t c) = column_ref (record { table = t; col = c })
  operand_expr (number n) = number_lit n
  operand_expr (text s) = string_lit s
  operand_expr (negative o) = unary_expr (codes "-") (operand_expr o)
  operand_expr (parens c) = condition_expr c

  pub product_expr : Product → Expr
  product_expr (operand o) = operand_expr o
  product_expr (multiply l o r) = binary (product_expr l) (factor o) (operand_expr r)

  pub sum_expr : Sum → Expr
  sum_expr (product p) = product_expr p
  sum_expr (add l o r) = binary (sum_expr l) (term o) (product_expr r)

  pub comparison_expr : Comparison → Expr
  comparison_expr (sum s) = sum_expr s
  comparison_expr (compare l o r) = binary (sum_expr l) (relation o) (sum_expr r)
  comparison_expr (between s low high) = between_expr (sum_expr s) (sum_expr low) (sum_expr high)
  comparison_expr (is_null s negated) =
      binary_expr (sum_expr s) (if negated then codes "IS NOT NULL" else codes "IS NULL")
        (string_lit [])

  pub condition_expr : Condition → Expr
  condition_expr (comparison c) = comparison_expr c
  condition_expr (connect l o r) = binary (condition_expr l) (connective o) (comparison_expr r)

-- A bound on how many minus signs and parentheses stand around each other.
unfoldable mutual
  pub operand_depth : Operand → ℕ
  operand_depth (name c) = 0
  operand_depth (qualified t c) = 0
  operand_depth (number n) = 0
  operand_depth (text s) = 0
  operand_depth (negative o) = suc (operand_depth o)
  operand_depth (parens c) = suc (condition_depth c)

  pub product_depth : Product → ℕ
  product_depth (operand o) = operand_depth o
  product_depth (multiply l o r) = product_depth l + operand_depth r

  pub sum_depth : Sum → ℕ
  sum_depth (product p) = product_depth p
  sum_depth (add l o r) = sum_depth l + product_depth r

  pub comparison_depth : Comparison → ℕ
  comparison_depth (sum s) = sum_depth s
  comparison_depth (compare l o r) = sum_depth l + sum_depth r
  comparison_depth (between s low high) = sum_depth s + (sum_depth low + sum_depth high)
  comparison_depth (is_null s negated) = sum_depth s

  pub condition_depth : Condition → ℕ
  condition_depth (comparison c) = comparison_depth c
  condition_depth (connect l o r) = condition_depth l + comparison_depth r
