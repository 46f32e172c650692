-- ===== src/SqlAst/Lexer/Progress.antt =====
-- The lexer of src/internal/sqlast/lexer.go comes to the end of its input, and its positions are
-- those of the input.
use dbexplain.Prelude.{
  ℕ, zero, suc, ◌+◌, ◌-◌, ◌≤◌, ◌<◌, ◌==◌, List, [], ◌∷◌, inl, inr, if◌then◌else◌, length, ◌≡◌, ◌≢◌,
  ◌⊎◌, refl, arith,
}
use dbexplain.Prelude.Text.{Text}
use dbexplain.SqlAst.TokenType
use dbexplain.SqlAst.Result.{Result, ok, failed, bind, Ensures, Ensures-bind, Ensures-if}
use dbexplain.SqlAst.Lexer.{
  Token, Lexer, skip_whitespace, next_at, next, tokens_from, new_lexer, tokenize,
}
use dbexplain.SqlAst.Lexer.Scan.{length-skip_whitespace, scan-Reads}

-- Each token but the last begins at a position of the input, behind the one before it, and is no
-- error; the last is the end of the input, at the length of the input.
abbrev pub Ordered : ℕ → ℕ → List Token → Type 0
Ordered low high [] = ⊥
Ordered low high (t ∷ []) = (t.type ≡ TokenType.eof) × (low ≤ high) × (t.pos ≡ high)
Ordered low high (t ∷ u ∷ ts) =
    (t.type ≢ TokenType.eof)
    × (t.type ≢ TokenType.error)
    × (low ≤ t.pos)
    × (t.pos < high)
    × Ordered (t.pos + 1) high (u ∷ ts)

-- Where the lexer stands, in an input that is `high` long.
abbrev StandsAt : ℕ → Lexer → Type 0
StandsAt high l = l.pos + length l.input ≡ high

next_at-eof : (pos : ℕ) → (next_at pos []).0.type ≡ TokenType.eof
unfolding next_at
next_at-eof pos = refl

Ordered-cons :
    (low high : ℕ) (t : Token) (ts : List Token)
    → t.type ≢ TokenType.eof
    → t.type ≢ TokenType.error
    → low ≤ t.pos
    → t.pos < high
    → Ordered (t.pos + 1) high ts
    → Ordered low high (t ∷ ts)
Ordered-cons low high t [] h k m n o = absurd o
Ordered-cons low high t (u ∷ ts) h k m n o = (h, k, m, n, o)

Ordered-lower :
    (low low' high : ℕ) (ts : List Token) → low ≤ low' → Ordered low' high ts → Ordered low high ts
Ordered-lower low low' high [] h o = o
Ordered-lower low low' high (t ∷ []) h (k, m, n) = (k, omega arith, n)
Ordered-lower low low' high (t ∷ u ∷ ts) h (a, b, k, m, n) = (a, b, omega arith, m, n)

-- What `next` does: it stops at the end, or fails, or takes a token and moves on.
abbrev Advances : ℕ → ℕ → Text → Token × Lexer → Type 0
Advances high low s (t, l) =
    ((t.type ≡ TokenType.eof) × (low ≤ high) × (t.pos ≡ high))
    ⊎ ((t.type ≡ TokenType.error)
        ⊎ ((0 < t.type)
            × (low ≤ t.pos)
            × (t.pos < high)
            × (t.pos + 1 ≤ l.pos)
            × StandsAt high l
            × (length l.input < length s)))

next_at-Advances :
    (high pos : ℕ) (s : Text) → pos + length s ≡ high → Advances high pos s (next_at pos s)
unfolding next_at
next_at-Advances high pos [] h = ground (arith, h)
next_at-Advances high pos (c ∷ s) h = ground (arith, scan-Reads c s, h)

next-Advances : (high : ℕ) (l : Lexer) → StandsAt high l → Advances high l.pos l.input (next l)
unfolding next
next-Advances high l h =
    let s = skip_whitespace l.input in
    ground (
      arith,
      length-skip_whitespace l.input,
      next_at-Advances high (l.pos + (length l.input - length s)) s,
      h,
    )

abbrev with_first : Token → Result (List Token) → Result (List Token)
with_first t r = bind r (λ ts. ok (t ∷ ts))

-- One round of `tokens_from`, `r` being the rest of the run.
abbrev round : Token → Result (List Token) → Result (List Token)
round t r =
    if t.type == TokenType.eof
    then ok (t ∷ [])
    else if t.type == TokenType.error
    then failed
    else with_first t r

round-eof : (t : Token) (r : Result (List Token)) → t.type ≡ TokenType.eof → round t r ≡ ok (t ∷ [])
round-eof t r e = rw e refl

round-error : (t : Token) (r : Result (List Token)) → t.type ≡ TokenType.error → round t r ≡ failed
round-error t r e = rw e refl

round-Ordered :
    (high low : ℕ) (s : Text) (t : Token) (l : Lexer) (r : Result (List Token))
    → Advances high low s (t, l)
    → (StandsAt high l → length l.input < length s → Ensures (Ordered l.pos high) r)
    → Ensures (Ordered low high) (round t r)
round-Ordered high low s t l r (inl (e, a, b)) k = rw (round-eof t r e) (e, a, b)
round-Ordered high low s t l r (inr (inl e)) k = rw (round-error t r e) tt
round-Ordered high low s t l r (inr (inr (p, a, b, c, at, shorter))) k =
    let rest = if t.type == TokenType.error then failed else with_first t r in
    Ensures-if (Ordered low high) (t.type == TokenType.eof) (ok (t ∷ [])) rest
      (λ n. absurd (ground (arith, n, p)))
      λ _.
        Ensures-if (Ordered low high) (t.type == TokenType.error) failed (with_first t r) (λ _. tt)
          λ n.
            Ensures-bind (Ordered l.pos high) (Ordered low high) r (λ ts. ok (t ∷ ts))
              (k at shorter)
              λ ts o.
                Ordered-cons low high t ts (λ e. omega (arith, p, e)) (λ e. ground (arith, n, e)) a
                  b (Ordered-lower (t.pos + 1) l.pos high ts c o)

tokens_from-Ordered :
    (f high : ℕ) (l : Lexer)
    → StandsAt high l
    → length l.input < f
    → Ensures (Ordered l.pos high) (tokens_from f l)
unfolding tokens_from
tokens_from-Ordered zero high l h k = absurd (omega arith)
tokens_from-Ordered (suc f) high l h k =
    round-Ordered high l.pos l.input (next l).0 (next l).1 (tokens_from f (next l).1)
      (next-Advances high l h)
      (λ at shorter. tokens_from-Ordered f high (next l).1 at (omega arith))

-- `tokenize` comes to the end of every text within its fuel, and where it does not fail, each token
-- but the last begins behind the one before it and inside the text, and the last is the end of the
-- text.
pub tokenize-Ordered : (sql : Text) → Ensures (Ordered 0 (length sql)) (tokenize sql)
unfolding tokenize new_lexer
tokenize-Ordered sql =
    tokens_from-Ordered (suc (length sql)) (length sql) (new_lexer sql) (omega arith) (omega arith)
