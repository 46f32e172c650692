-- ===== src/SqlAst/Parsing.antt =====
-- The state of `Parser` of src/internal/sqlast/parser.go, `peek`, `next`, `expect` and
-- `skipSemicolons`, and the shapes of its loops. The tokens from the position on stand for the tokens
-- and the index into them.
pub mod Consumes
use dbexplain.Prelude.{
  ℕ, zero, suc, Bool, true, false, ◌==◌, List, [], ◌∷◌, Option, none, some, drop, length,
  if◌then◌else◌,
}
use dbexplain.Prelude.Text.{Text}
use dbexplain.SqlAst.{Expr, binary_expr}
use dbexplain.SqlAst.TokenType
use dbexplain.SqlAst.Lexer.{Token}
use dbexplain.SqlAst.Result.{Result, ok, failed, out_of_fuel, bind}

abbrev pub Parser {ℓ} : Type ℓ → Type ℓ
Parser A = List Token → Result (A × List Token)

abbrev pub pure {ℓ} : {A : Type ℓ} → A → Parser A
pure a ts = ok (a, ts)

module _ {ℓ κ} {A : Type ℓ} {B : Type κ} where
  infixl 1 ◌>>=◌ ◌>>◌
  abbrev pub ◌>>=◌ : Parser A → (A → Parser B) → Parser B
  p >>= f = λ ts. bind (p ts) λ (a, rest). f a rest

  abbrev pub ◌>>◌ : Parser A → Parser B → Parser B
  p >> q = p >>= λ _. q

-- p.peek().Type, which is the end of the input behind the last token
abbrev pub peek : List Token → ℕ
peek [] = TokenType.eof
peek (t ∷ ts) = t.type

-- `expect`, and `next` where the code tests the type of its result at once: the token's value.
unfoldable pub expect : ℕ → Parser Text
expect type [] = failed
expect type (t ∷ ts) = if t.type == type then ok (t.value, ts) else failed

-- if p.peek().Type == type { p.next() }, and whether it was so
unfoldable pub accept : ℕ → Parser Bool
accept type ts = if peek ts == type then ok (true, drop 1 ts) else ok (false, ts)

module _ {ℓ} {A : Type ℓ} where
  -- if p.peek().Type == type { p.next(); p }
  unfoldable pub optional : ℕ → Parser A → A → Parser A
  optional type p a ts = if peek ts == type then p (drop 1 ts) else ok (a, ts)

  -- The loop that ends where no comma follows. Each round takes a token at least.
  unfoldable pub comma_rounds : ℕ → Parser A → Parser (List A)
  comma_rounds zero p ts = out_of_fuel
  comma_rounds (suc n) p ts = bind (p ts) λ (a, rest).
      let more = bind (comma_rounds n p (drop 1 rest)) λ (l, rest'). ok (a ∷ l, rest') in
      if peek rest == TokenType.comma then more else ok (a ∷ [], rest)

  unfoldable pub comma_list : Parser A → Parser (List A)
  unfolding comma_rounds
  comma_list p ts = comma_rounds (suc (length ts)) p ts

-- The loop that reads operators of one level and their right operands, leaning to the left.
unfoldable pub operator_rounds : ℕ → (ℕ → Option Text) → Parser Expr → Expr → Parser Expr
operator_rounds zero op p left ts = out_of_fuel
operator_rounds (suc n) op p left ts = elim (op (peek ts)) [
  | none ↦ ok (left, ts)
  | some name ↦
      bind (p (drop 1 ts))
        λ (right, rest). operator_rounds n op p (binary_expr left name right) rest
]

unfoldable pub operators : (ℕ → Option Text) → Parser Expr → Parser Expr
unfolding operator_rounds
operators op p = p >>= λ left ts. operator_rounds (suc (length ts)) op p left ts

unfoldable pub skip_semicolons : List Token → List Token
skip_semicolons [] = []
skip_semicolons (t ∷ ts) = if t.type == TokenType.semicolon then skip_semicolons ts else t ∷ ts

abbrev pub semicolons : Parser (Unit {0})
semicolons ts = ok (tt, skip_semicolons ts)
