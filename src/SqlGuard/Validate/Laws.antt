-- ===== src/SqlGuard/Validate/Laws.antt =====
-- When the validation returns: its recursion on EXPLAIN statements.
use dbexplain.Prelude.{
  ℕ, zero, suc, ◌≤◌, ◌<◌, ◌≡◌, ◌≢◌, refl, sym, ◌∙◌, ◌⊎◌, inl, inr, true, false, not, ◌==◌, List, [],
  ◌∷◌, map, keep, All, Option, is_empty, length, arith, Bool-cases, Option-cases,
}
use dbexplain.Prelude.Text.{
  Text, codes, trim_space, to_upper, text_eq, text_eq_iff, split, split_cons,
}
use dbexplain.SqlAst.{Stmt, select_stmt, union_stmt}
use dbexplain.SqlGuard.Words.{split_statements, first_word}
use dbexplain.SqlGuard.Explain.{strip_explain_prefix}
use dbexplain.SqlGuard.Explain.Bounds.{
  NoParen, length-strip_explain_prefix-lt, length-trim_space-le,
}
use dbexplain.SqlGuard.Validate.{
  out_of_fuel, validate_cte, validate_word, validate_parsed, validate_plain, validate_first,
  validate_statements, validate,
}

-- The text is one EXPLAIN statement, and `inner` is what its keyword and options are stripped to.
pub data Explains (raw inner : Text) : Type 0 where
  explains :
      (s : Text)
      → is_empty (trim_space raw) ≡ false
      → split_statements (trim_space raw) ≡ s ∷ []
      → to_upper (first_word (trim_space s)) ≡ codes "EXPLAIN"
      → is_empty inner ≡ false
      → inner ≡ strip_explain_prefix (trim_space s)
      → Explains raw inner

-- Stripping the EXPLAIN keywords one by one comes to an EXPLAIN behind a parenthesis.
pub data Hits : Text → Type 0 where
  here :
      {raw inner : Text} (s : Text)
      → Explains raw inner
      → split_statements (trim_space raw) ≡ s ∷ []
      → ¬ NoParen (trim_space (trim_space s))
      → Hits raw
  deeper : {raw inner : Text} → Explains raw inner → Hits inner → Hits raw

All-le_mono :
    (m n : ℕ) (l : List Text) → m ≤ n → All (λ p. length p ≤ m) l → All (λ p. length p ≤ n) l
All-le_mono m n [] h a = tt
All-le_mono m n (p ∷ l) h a = (omega arith, All-le_mono m n l h a.1)

All-split_cons :
    (n c : ℕ) (l : List Text)
    → All (λ p. length p ≤ n) l
    → All (λ p. length p ≤ suc n) (split_cons c l)
All-split_cons n c [] h = (omega arith, tt)
All-split_cons n c (p ∷ l) h = (omega arith, All-le_mono n (suc n) l (omega arith) h.1)

length-split : (b : ℕ) (s : Text) → All (λ p. length p ≤ length s) (split s b)
unfolding split
length-split b [] = (omega arith, tt)
length-split b (c ∷ s) = elim (Bool-cases (c == b)) [
  | inl e ↦ rw e (omega arith, All-le_mono (length s) _ _ (omega arith) (length-split b s))
  | inr e ↦ rw e (All-split_cons (length s) c _ (length-split b s))
]

All-trimmed :
    (n : ℕ) (l : List Text)
    → All (λ p. length p ≤ n) l
    → All (λ p. length p ≤ n) (keep (λ p. not (is_empty p)) (map trim_space l))
All-trimmed n [] h = tt
All-trimmed n (p ∷ l) h = elim (Bool-cases (is_empty (trim_space p))) [
  | inl e ↦ rw e (All-trimmed n l h.1)
  | inr e ↦ rw e (omega (arith, length-trim_space-le p), All-trimmed n l h.1)
]

length-statement : (sql s : Text) → split_statements sql ≡ s ∷ [] → length s ≤ length sql
unfolding split_statements
length-statement sql s h =
    let bounds : All (λ p. length p ≤ length sql) (s ∷ []) =
      rw h at (All-trimmed (length sql) (split sql b';') (length-split b';' sql)) in
    bounds.0

head-eq : {s t : Text} → ◌≡◌ {A = List Text} (s ∷ []) (t ∷ []) → s ≡ t
head-eq h = cc

explain_token :
    {raw inner : Text} (s : Text)
    → Explains raw inner
    → split_statements (trim_space raw) ≡ s ∷ []
    → to_upper (first_word (trim_space s)) ≡ codes "EXPLAIN"
explain_token s (explains t e one token some_inner stripped) l =
    let same : t ≡ s = head-eq (sym one ∙ l) in rw (← same) token

-- The inner statement of an EXPLAIN that does not begin with a parenthesis is shorter.
length-inner :
    {raw : Text} (s : Text)
    → Explains raw (strip_explain_prefix (trim_space s))
    → split_statements (trim_space raw) ≡ s ∷ []
    → NoParen (trim_space (trim_space s))
    → length (strip_explain_prefix (trim_space s)) < length raw
length-inner {raw} s x l n = omega (
  arith,
  length-strip_explain_prefix-lt (trim_space s) (explain_token s x l) n,
  length-trim_space-le s,
  length-statement (trim_space raw) s l,
  length-trim_space-le raw,
)

pub statement_cases :
    (l : List Text)
    → (l ≡ [])
      ⊎ (((s : Text) × (l ≡ s ∷ []))
          ⊎ ((s : Text) × (t : Text) × (ss : List Text) × (l ≡ s ∷ t ∷ ss)))
statement_cases [] = inl refl
statement_cases (s ∷ []) = inr (inl (s, refl))
statement_cases (s ∷ t ∷ ss) = inr (inr (s, t, ss, refl))

NoParen-cases : (s : Text) → NoParen s ⊎ (¬ NoParen s)
NoParen-cases [] = inl tt
NoParen-cases (c ∷ s) = elim (Bool-cases (c == b'(')) [
  | inl e ↦ inr (λ n. cc (e, n))
  | inr e ↦ inl e
]

validate_word-returns : (token n : Text) → validate_word token n ≢ out_of_fuel
unfolding validate_word
validate_word-returns token n = ground arith

validate_parsed-returns : (sql : Text) (stmt : Stmt) → validate_parsed sql stmt ≢ out_of_fuel
unfolding validate_parsed
validate_parsed-returns sql (select_stmt s) = ground arith
validate_parsed-returns sql (union_stmt left right all) = cc

validate_cte-returns : (n : Text) → validate_cte n ≢ out_of_fuel
unfolding validate_cte
validate_cte-returns n = ground arith

module _ (parse : Text → Option Stmt) where
  validate_plain-returns : (sql token n : Text) → validate_plain parse sql token n ≢ out_of_fuel
  unfolding validate_plain
  validate_plain-returns sql token n = elim (Option-cases (parse sql)) [
    | inl e ↦ rw (e, validate_plain) (validate_word-returns token n)
    | inr (stmt, e) ↦ rw (e, validate_plain) (validate_parsed-returns sql stmt)
  ]

  -- One round of the validation of an EXPLAIN statement.
  pub validate-Explains :
      {raw inner : Text} (f : ℕ)
      → Explains raw inner
      → validate parse (suc f) raw ≡ validate parse f inner
  unfolding validate validate_statements validate_first
  validate-Explains {raw} {inner} f (explains s e one token some_inner stripped) =
      rw (e, one, ← stripped, some_inner) (rw token)

  -- A round on one statement returns at once, or goes on with the inner statement.
  first_round :
      (f : ℕ) (raw s : Text)
      → is_empty (trim_space raw) ≡ false
      → split_statements (trim_space raw) ≡ s ∷ []
      → (validate parse (suc f) raw ≢ out_of_fuel)
        ⊎ Explains raw (strip_explain_prefix (trim_space s))
  unfolding validate validate_statements validate_first
  first_round f raw s e one =
      let n = trim_space s in
      let token = to_upper (first_word n) in
      let inner = strip_explain_prefix n in
      rw (e, one)
        (elim (Bool-cases (text_eq token (codes "WITH"))) [
          | inl w ↦ rw w (inl (validate_cte-returns n))
          | inr w ↦ rw w (elim (Bool-cases (text_eq token (codes "EXPLAIN"))) [
            | inl x ↦ rw x (elim (Bool-cases (is_empty inner)) [
              | inl i ↦ rw i (inl (λ h. cc))
              | inr i ↦ inr (explains s e one ((text_eq_iff token _).0 x) i refl)
            ])
            | inr x ↦ rw x (inl (validate_plain-returns (trim_space raw) token n))
          ])
        ])

  -- A text that is empty, or that is not one statement, has its verdict at once.
  empty-returns :
      (f : ℕ) (raw : Text)
      → is_empty (trim_space raw) ≡ true
      → validate parse (suc f) raw ≢ out_of_fuel
  unfolding validate
  empty-returns f raw e = rw e (λ h. cc)

  none-returns :
      (f : ℕ) (raw : Text)
      → is_empty (trim_space raw) ≡ false
      → split_statements (trim_space raw) ≡ []
      → validate parse (suc f) raw ≢ out_of_fuel
  unfolding validate validate_statements
  none-returns f raw e l = rw (e, l) (λ h. cc)

  many-returns :
      (f : ℕ) (raw s t : Text) (ss : List Text)
      → is_empty (trim_space raw) ≡ false
      → split_statements (trim_space raw) ≡ s ∷ t ∷ ss
      → validate parse (suc f) raw ≢ out_of_fuel
  unfolding validate validate_statements
  many-returns f raw s t ss e l = rw (e, l) (λ h. cc)

  -- With more fuel than the text has bytes, the validation returns a verdict, unless stripping
  -- EXPLAIN keywords comes to an EXPLAIN behind a parenthesis.
  pub validate-returns :
      (f : ℕ) (raw : Text) → length raw < f → (validate parse f raw ≢ out_of_fuel) ⊎ Hits raw
  validate-returns zero raw h = absurd (omega arith)
  validate-returns (suc f) raw h = elim (Bool-cases (is_empty (trim_space raw))) [
    | inl e ↦ inl (empty-returns f raw e)
    | inr e ↦ elim (statement_cases (split_statements (trim_space raw))) [
      | inl l ↦ inl (none-returns f raw e l)
      | inr (inl (s, l)) ↦ elim (first_round f raw s e l) [
        | inl r ↦ inl r
        | inr x ↦ elim (NoParen-cases (trim_space (trim_space s))) [
          | inl n ↦
              elim (validate-returns f (strip_explain_prefix (trim_space s))
                (omega (arith, length-inner s x l n))) [
                  | inl r ↦ inl (rw (validate-Explains f x) r)
                  | inr hit ↦ inr (deeper x hit)
                ]
          | inr n ↦ inr (here s x l n)
        ]
      ]
      | inr (inr (s, t, ss, l)) ↦ inl (many-returns f raw s t ss e l)
    ]
  ]
