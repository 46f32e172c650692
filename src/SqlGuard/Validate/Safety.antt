-- ===== src/SqlGuard/Validate/Safety.antt =====
-- What the validation accepts, and the texts on which it does not return.
use dbexplain.Prelude.{
  ℕ, zero, suc, ◌≡◌, ◌≢◌, refl, sym, ◌∙◌, ◌⊎◌, inl, inr, true, false, List, [], ◌∷◌, Option, none,
  some, is_empty, arith, Bool-cases, Option-cases,
}
use dbexplain.Prelude.Text.{Text, codes, trim_space, to_upper, one_of, text_eq, text_eq_iff}
use dbexplain.SqlAst.{Stmt, select_stmt, union_stmt}
use dbexplain.SqlGuard.Words.{split_statements, first_word, write_ops, read_ops}
use dbexplain.SqlGuard.Explain.{strip_explain_prefix}
use dbexplain.SqlGuard.Explain.Bounds.{strip_explain_prefix-paren}
use dbexplain.SqlGuard.Cte.{contains_cte_write}
use dbexplain.SqlGuard.Into.{is_select_into}
use dbexplain.SqlGuard.Validate.{
  accepted, out_of_fuel, validate_cte, validate_word, validate_parsed, validate_plain,
  validate_first, validate_statements, validate,
}
use dbexplain.SqlGuard.Validate.Laws.{Explains, explains, validate-Explains, statement_cases}

-- The only statement of the text is `n`.
abbrev pub IsStatement : Text → Text → Type 0
IsStatement raw n = (s : Text) × (split_statements (trim_space raw) ≡ s ∷ []) × (n ≡ trim_space s)

abbrev pub token : Text → Text
token n = to_upper (first_word n)

-- What the check of INTO says of a statement that the parser reads.
abbrev pub NoInto : Text → Stmt → Type 0
NoInto sql (select_stmt s) = is_select_into sql ≡ false
NoInto sql (union_stmt left right all) = Unit

-- The reasons for which a text may be accepted.
pub data Reads (parse : Text → Option Stmt) : Text → Type 0 where
  explained : {raw inner : Text} → Explains raw inner → Reads parse inner → Reads parse raw
  with_query :
      {raw n : Text}
      → IsStatement raw n
      → token n ≡ codes "WITH"
      → contains_cte_write n ≡ false
      → Reads parse raw
  parsed :
      {raw n : Text} (stmt : Stmt)
      → IsStatement raw n
      → parse (trim_space raw) ≡ some stmt
      → NoInto (trim_space raw) stmt
      → Reads parse raw
  reading_verb :
      {raw n : Text}
      → IsStatement raw n
      → parse (trim_space raw) ≡ none
      → one_of (token n) write_ops ≡ false
      → one_of (token n) read_ops ≡ true
      → (text_eq (token n) (codes "SELECT") ≡ true → is_select_into n ≡ false)
      → Reads parse raw

validate_cte_sound : (n : Text) → validate_cte n ≡ accepted → contains_cte_write n ≡ false
unfolding validate_cte
validate_cte_sound n h = ground arith

validate_parsed_sound :
    (sql : Text) (stmt : Stmt) → validate_parsed sql stmt ≡ accepted → NoInto sql stmt
unfolding validate_parsed
validate_parsed_sound sql (select_stmt s) h = ground arith
validate_parsed_sound sql (union_stmt left right all) h = tt

validate_word_sound :
    (t n : Text)
    → validate_word t n ≡ accepted
    → (one_of t write_ops ≡ false)
      × (one_of t read_ops ≡ true)
      × (text_eq t (codes "SELECT") ≡ true → is_select_into n ≡ false)
unfolding validate_word
validate_word_sound t n h = ground arith

Reads-plain :
    (parse : Text → Option Stmt) {raw n : Text}
    → IsStatement raw n
    → validate_plain parse (trim_space raw) (token n) n ≡ accepted
    → Reads parse raw
unfolding validate_plain
Reads-plain parse {raw} {n} one h = elim (Option-cases (parse (trim_space raw))) [
  | inl e ↦
      let (w, r, i) = validate_word_sound (token n) n (rw (e, validate_plain) at h) in
      reading_verb one e w r i
  | inr (stmt, e) ↦
      parsed stmt one e (validate_parsed_sound (trim_space raw) stmt (rw (e, validate_plain) at h))
]

module _ (parse : Text → Option Stmt) where
  not-empty :
      (f : ℕ) (raw : Text)
      → is_empty (trim_space raw) ≡ true
      → validate parse (suc f) raw ≢ accepted
  unfolding validate
  not-empty f raw e = rw e (λ h. cc)

  not-none :
      (f : ℕ) (raw : Text)
      → is_empty (trim_space raw) ≡ false
      → split_statements (trim_space raw) ≡ []
      → validate parse (suc f) raw ≢ accepted
  unfolding validate validate_statements
  not-none f raw e l = rw (e, l) (λ h. cc)

  not-many :
      (f : ℕ) (raw s t : Text) (ss : List Text)
      → is_empty (trim_space raw) ≡ false
      → split_statements (trim_space raw) ≡ s ∷ t ∷ ss
      → validate parse (suc f) raw ≢ accepted
  unfolding validate validate_statements
  not-many f raw s t ss e l = rw (e, l) (λ h. cc)

  -- One round on one statement: the verdict of a branch, or that of the inner statement.
  accepted_round :
      (f : ℕ) (raw s : Text)
      → is_empty (trim_space raw) ≡ false
      → split_statements (trim_space raw) ≡ s ∷ []
      → validate parse (suc f) raw ≡ accepted
      → Reads parse raw
        ⊎ ((inner : Text) × Explains raw inner × (validate parse f inner ≡ accepted))
  unfolding validate validate_statements validate_first
  accepted_round f raw s e l h =
      let n = trim_space s in
      let one : IsStatement raw n = (s, l, refl) in
      let round = rw (e, l) at h in
      elim (Bool-cases (text_eq (token n) (codes "WITH"))) [
        | inl w ↦ inl (
            with_query one ((text_eq_iff (token n) (codes "WITH")).0 w)
              (validate_cte_sound n (rw w at round)))
        | inr w ↦ elim (Bool-cases (text_eq (token n) (codes "EXPLAIN"))) [
          | inl x ↦ elim (Bool-cases (is_empty (strip_explain_prefix n))) [
            | inl i ↦ absurd (cc (rw (w, x, i) at round))
            | inr i ↦ inr (
              strip_explain_prefix n,
              explains s e l ((text_eq_iff (token n) (codes "EXPLAIN")).0 x) i refl,
              rw (w, x, i) at round,
            )
          ]
          | inr x ↦ inl (Reads-plain parse one (rw (w, x) at round))
        ]
      ]

  -- A text is accepted only for a reason: below its EXPLAIN prefixes it is a single statement that is
  -- a WITH query in which no write is found, or that the parser reads (with no INTO if it is a
  -- SELECT), or that begins with a reading verb and no writing verb (with no INTO if that is SELECT).
  pub validate-Reads : (f : ℕ) (raw : Text) → validate parse f raw ≡ accepted → Reads parse raw
  unfolding validate
  validate-Reads zero raw h = cc
  validate-Reads (suc f) raw h = elim (Bool-cases (is_empty (trim_space raw))) [
    | inl e ↦ absurd (not-empty f raw e h)
    | inr e ↦ elim (statement_cases (split_statements (trim_space raw))) [
      | inl l ↦ absurd (not-none f raw e l h)
      | inr (inl (s, l)) ↦ elim (accepted_round f raw s e l h) [
        | inl r ↦ r
        | inr (inner, x, k) ↦ explained x (validate-Reads f inner k)
      ]
      | inr (inr (s, t, ss, l)) ↦ absurd (not-many f raw s t ss e l h)
    ]
  ]

  diverges_self : (raw : Text) → Explains raw raw → (f : ℕ) → validate parse f raw ≡ out_of_fuel
  unfolding validate
  diverges_self raw x zero = refl
  diverges_self raw x (suc f) = validate-Explains parse f x ∙ diverges_self raw x f

  -- On a trimmed text that is one statement, begins with a parenthesis and has EXPLAIN as its first
  -- word, the validation calls itself on the same text for ever: no fuel is enough.
  pub validate_diverges :
      (f : ℕ) (rest : Text)
      → trim_space (b'(' ∷ rest) ≡ b'(' ∷ rest
      → split_statements (b'(' ∷ rest) ≡ (b'(' ∷ rest) ∷ []
      → token (b'(' ∷ rest) ≡ codes "EXPLAIN"
      → validate parse f (b'(' ∷ rest) ≡ out_of_fuel
  validate_diverges f rest t s w =
      diverges_self (b'(' ∷ rest)
        (explains (b'(' ∷ rest) (rw t) (rw t s) (rw t w) refl
          (rw t (sym (strip_explain_prefix-paren rest t))))
        f
