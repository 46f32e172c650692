-- ===== src/SqlAst/Parsing/Consumes.antt =====
-- How many tokens the parts of src/internal/sqlast/parser.go take: what a loop of the parser needs to
-- end, and what its results satisfy.
use dbexplain.Prelude.{
  ℕ, zero, suc, ◌+◌, ◌≤◌, ◌<◌, Bool, true, false, ◌==◌, List, [], ◌∷◌, Option, none, some, All,
  drop, length, length-drop-le, if◌then◌else◌, Option-cases, inl, inr, ◌≡◌, refl, arith,
}
use dbexplain.Prelude.Text.{Text}
use dbexplain.SqlAst.{Expr, binary_expr}
use dbexplain.SqlAst.TokenType
use dbexplain.SqlAst.Lexer.{Token}
use dbexplain.SqlAst.Result.{ok, failed, bind, Ensures, Ensures-bind, Ensures-if, Ensures-weaken}
use dbexplain.SqlAst.Parsing.{
  Parser, pure, peek, expect, accept, optional, comma_rounds, comma_list, operator_rounds,
  operators, skip_semicolons, semicolons,
}

abbrev pub Any {ℓ} : {A : Type ℓ} → A → Type 0
Any a = Unit

-- On `n` tokens at most the parser keeps within its fuel, and where it does not fail it takes `k`
-- tokens at least and its value satisfies `P`.
abbrev pub Gives {ℓ} : {A : Type ℓ} → (A → Type 0) → ℕ → ℕ → Parser A → Type 0
Gives P k n p =
    (ts : List Token) → length ts ≤ n → Ensures (λ r. (k + length r.1 ≤ length ts) × P r.0) (p ts)

module _ {ℓ} {A : Type ℓ} (P : A → Type 0) where
  pub pure-Gives : (n : ℕ) (a : A) → P a → Gives P 0 n (pure a)
  pure-Gives n a h ts l = (omega arith, h)

  pub Gives-weaken :
      (Q : A → Type 0) (j k n : ℕ) (p : Parser A)
      → k ≤ j
      → ((a : A) → P a → Q a)
      → Gives P j n p
      → Gives Q k n p
  Gives-weaken Q j k n p h f g ts l =
      Ensures-weaken _ _ (p ts) (g ts l) (λ r (a, b). (omega arith, f r.0 b))

  pub if-Gives :
      (k n : ℕ) (b : Bool) (p q : Parser A)
      → Gives P k n p
      → Gives P k n q
      → Gives P k n (if b then p else q)
  if-Gives k n true p q h g = h
  if-Gives k n false p q h g = g

  -- A parser that is called behind one token, if there is one.
  pub drop-Gives :
      (n : ℕ) (p : Parser A) (ts : List Token)
      → Gives P 0 n p
      → length ts ≤ n
      → Ensures (λ r. (0 + length r.1 ≤ length ts) × P r.0) (p (drop 1 ts))
  drop-Gives n p ts h l =
      Ensures-weaken _ _ (p (drop 1 ts)) (h (drop 1 ts) (omega (arith, length-drop-le 1 ts)))
        (λ r (a, b). (omega (arith, length-drop-le 1 ts), b))

  pub optional-Gives :
      (n type : ℕ) (p : Parser A) (a : A) → Gives P 0 n p → P a → Gives P 0 n (optional type p a)
  unfolding optional
  optional-Gives n type p a h k ts l =
      Ensures-if _ (peek ts == type) (p (drop 1 ts)) (ok (a, ts)) (λ _. drop-Gives n p ts h l)
        (λ _. (omega arith, k))

  -- At least one element, each of which satisfies `P`.
  abbrev pub Some : List A → Type 0
  Some [] = ⊥
  Some (a ∷ l) = P a × All P l

  pub Some-All : (l : List A) → Some l → All P l
  Some-All [] h = tt
  Some-All (a ∷ l) h = h

  comma_rounds-Gives :
      (m n : ℕ) (p : Parser A) (ts : List Token)
      → Gives P 1 n p
      → length ts ≤ n
      → length ts < m
      → Ensures (λ r. (1 + length r.1 ≤ length ts) × Some r.0) (comma_rounds m p ts)
  unfolding comma_rounds
  comma_rounds-Gives zero n p ts h l lt = absurd (omega arith)
  comma_rounds-Gives (suc m) n p ts h l lt =
      Ensures-bind _ _ (p ts) _ (h ts l) λ (a, rest) (shorter, pa).
        Ensures-if _ (peek rest == TokenType.comma) _ (ok (a ∷ [], rest))
          (λ _.
            Ensures-bind _ _ (comma_rounds m p (drop 1 rest)) _
              (comma_rounds-Gives m n p (drop 1 rest) h (omega (arith, length-drop-le 1 rest))
                (omega (arith, length-drop-le 1 rest)))
              λ (l', rest') (shorter', pl).
                (omega (arith, length-drop-le 1 rest), (pa, Some-All l' pl)))
          (λ _. (shorter, (pa, tt)))

  pub comma_list-Gives : (n : ℕ) (p : Parser A) → Gives P 1 n p → Gives Some 1 n (comma_list p)
  unfolding comma_list
  comma_list-Gives n p h ts l = comma_rounds-Gives (suc (length ts)) n p ts h l (omega arith)

pub expect-Gives : (n type : ℕ) → Gives Any 1 n (expect type)
unfolding expect
expect-Gives n type [] l = tt
expect-Gives n type (t ∷ ts) l =
    Ensures-if _ (t.type == type) (ok (t.value, ts)) failed (λ _. (omega arith, tt)) (λ _. tt)

pub accept-Gives : (n type : ℕ) → Gives Any 0 n (accept type)
unfolding accept
accept-Gives n type ts l =
    Ensures-if _ (peek ts == type) (ok (true, drop 1 ts)) (ok (false, ts))
      (λ _. (omega (arith, length-drop-le 1 ts), tt)) (λ _. (omega arith, tt))

length-skip_semicolons : (ts : List Token) → length (skip_semicolons ts) ≤ length ts
unfolding skip_semicolons
length-skip_semicolons [] = omega arith
length-skip_semicolons (t ∷ ts) = ground (arith, length-skip_semicolons ts)

pub semicolons-Gives : (n : ℕ) → Gives Any 0 n semicolons
semicolons-Gives n ts l = (omega (arith, length-skip_semicolons ts), tt)

pub rounds-none :
    (op : ℕ → Option Text) (p : Parser Expr) (m : ℕ) (left : Expr) (ts : List Token)
    → op (peek ts) ≡ none
    → operator_rounds (suc m) op p left ts ≡ ok (left, ts)
unfolding operator_rounds
rounds-none op p m left ts e = rw (e, operator_rounds) refl

pub rounds-some :
    (op : ℕ → Option Text) (p : Parser Expr) (m : ℕ) (left : Expr) (ts : List Token) (name : Text)
    → op (peek ts) ≡ some name
    → operator_rounds (suc m) op p left ts
      ≡ bind (p (drop 1 ts)) (λ r. operator_rounds m op p (binary_expr left name r.0) r.1)
unfolding operator_rounds
rounds-some op p m left ts name e = rw (e, operator_rounds) refl

module _ (op : ℕ → Option Text) (n : ℕ) (p : Parser Expr) (h : Gives Any 1 n p) where
  operator_rounds-Gives :
      (m : ℕ) (left : Expr) (ts : List Token)
      → length ts ≤ n
      → length ts < m
      → Ensures (λ r. (0 + length r.1 ≤ length ts) × Any r.0) (operator_rounds m op p left ts)
  operator_rounds-Gives zero left ts l lt = absurd (omega arith)
  operator_rounds-Gives (suc m) left ts l lt = elim (Option-cases (op (peek ts))) [
    | inl e ↦ rw (rounds-none op p m left ts e) (omega arith, tt)
    | inr (name, e) ↦ rw (rounds-some op p m left ts name e) (
        Ensures-bind _ _ (p (drop 1 ts)) _ (h (drop 1 ts) (omega (arith, length-drop-le 1 ts)))
          λ r (shorter, _).
            Ensures-weaken _ _ (operator_rounds m op p (binary_expr left name r.0) r.1)
              (operator_rounds-Gives m (binary_expr left name r.0) r.1
                (omega (arith, length-drop-le 1 ts)) (omega (arith, length-drop-le 1 ts)))
              λ r' (a, b). (omega (arith, length-drop-le 1 ts), tt))
  ]

  pub operators-Gives : Gives Any 1 n (operators op p)
  unfolding operators
  operators-Gives ts l = Ensures-bind _ _ (p ts) _ (h ts l) λ (left, rest) (shorter, _).
      Ensures-weaken _ _ (operator_rounds (suc (length rest)) op p left rest)
        (operator_rounds-Gives (suc (length rest)) left rest (omega arith) (omega arith))
        λ r (a, b). (omega arith, tt)
