-- ===== src/SqlGuard/Limit/Appended.antt =====
-- What `AutoLimit` of src/internal/sqlguard/sqlguard.go returns.
use dbexplain.Prelude.{
  ℕ, Bool, true, false, not, ◌||◌, ◌++◌, Option, none, some, if◌then◌else◌, ltb, ◌≡◌, ◌<◌, ◌↔◌, ◌⊎◌,
  refl, ◌∙◌, inl, inr, Bool-cases, Option-cases, arith,
}
use dbexplain.Prelude.Text.{Text, codes, trim_space, to_upper, one_of}
use dbexplain.SqlAst.{Stmt, select_stmt, union_stmt, limit}
use dbexplain.SqlGuard.Words.{first_word}
use dbexplain.SqlGuard.Limit.{
  has_outer_limit, with_limit, decimal, trim_cutset, trim_semicolon, auto_limit, auto_limit_parsed,
  auto_limit_word, limitable,
}
use dbexplain.SqlGuard.Limit.Outer.{
  depth_after, depth_after-trim_space, depth_after-trim_cutset, depth_after-trim_semicolon,
}
use dbexplain.SqlGuard.Limit.Found.{HasLimit, outside, has_outer_limit_iff}
use dbexplain.SqlGuard.Limit.Decimal.{spelled, spelled-decimal}
use dbexplain.SqlGuard.Limit.Trimmed.{Around, droppable, trim_cutset-Around, trim_semicolon-Around}

-- The text has the word LIMIT outside of all parentheses.
abbrev pub IsLimited : Text → Type 0
IsLimited sql = HasLimit (outside (to_upper sql))

-- LIMIT and the digits of the number stand behind the text, which has lost white space and semicolons
-- around it alone, at the depth of parentheses at which the text ends.
abbrev pub IsAppended : Text → ℕ → Text → Type 0
IsAppended sql n out =
    (inner : Text) × (digits : Text) × (out ≡ inner ++ (codes " LIMIT " ++ digits))
    × (spelled 0 digits ≡ some n)
    × Around droppable sql inner
    × (depth_after 0 inner ≡ depth_after 0 sql)

-- What is not to be limited: a SELECT with a limit, which the parser reads or which stands outside of
-- parentheses, a union whose first SELECT has one, and, where the parser gives up, a text that begins
-- with no word that reads or that has LIMIT outside of parentheses.
abbrev pub IsExempt : Text → Option Stmt → Type 0
IsExempt sql none = (one_of (to_upper (first_word sql)) limitable ≡ false) ⊎ IsLimited sql
IsExempt sql (some (select_stmt s)) = (0 < limit s) ⊎ IsLimited sql
IsExempt sql (some (union_stmt left right all)) = 0 < limit left

-- The text as it is where it is exempt, and with a limit where it is not.
abbrev pub Limits : Text → ℕ → Option Stmt → Text → Type 0
Limits sql n stmt out =
    (IsExempt sql stmt × (out ≡ sql)) ⊎ ((¬ IsExempt sql stmt) × IsAppended sql n out)

with_limit-IsAppended :
    (sql inner : Text) (n : ℕ)
    → Around droppable sql inner
    → depth_after 0 inner ≡ depth_after 0 sql
    → IsAppended sql n (with_limit inner n)
unfolding with_limit
with_limit-IsAppended sql inner n h d = (inner, decimal n, refl, spelled-decimal n, h, d)

cutset-IsAppended : (sql : Text) (n : ℕ) → IsAppended sql n (with_limit (trim_cutset sql) n)
cutset-IsAppended sql n =
    with_limit-IsAppended sql (trim_cutset sql) n (trim_cutset-Around sql)
      (depth_after-trim_cutset 0 sql)

semicolon-IsAppended :
    (sql : Text) (n : ℕ) → IsAppended sql n (with_limit (trim_space (trim_semicolon sql)) n)
semicolon-IsAppended sql n =
    with_limit-IsAppended sql (trim_space (trim_semicolon sql)) n (trim_semicolon-Around sql)
      (depth_after-trim_space 0 (trim_semicolon sql) ∙ depth_after-trim_semicolon 0 sql)

-- A test that decides the exemption decides which text comes out.
if-Limits :
    (b : Bool) (sql limited : Text) (n : ℕ) (stmt : Option Stmt)
    → (b ≡ true → IsExempt sql stmt)
    → (IsExempt sql stmt → b ≡ true)
    → IsAppended sql n limited
    → Limits sql n stmt (if b then sql else limited)
if-Limits true sql limited n stmt sound complete h = inl (sound refl, refl)
if-Limits false sql limited n stmt sound complete h = inr (λ e. cc (complete e), h)

is_limited : Text → Bool
is_limited sql = has_outer_limit (to_upper sql)

is_limited_iff : (sql : Text) → (is_limited sql ≡ true) ↔ IsLimited sql
unfolding is_limited
is_limited_iff sql = has_outer_limit_iff (to_upper sql)

-- A test or the search for LIMIT outside of parentheses.
or_else_IsLimited_iff :
    (b : Bool) (sql : Text) (P : Type 0)
    → (b ≡ true) ↔ P
    → (b || is_limited sql ≡ true) ↔ (P ⊎ IsLimited sql)
or_else_IsLimited_iff b sql P same = (
  λ h. elim (Bool-cases b) [
    | inl e ↦ inl (same.0 e)
    | inr e ↦ inr ((is_limited_iff sql).0 (rw e at h))
  ],
  λ x. elim x [ inl p ↦ rw (same.1 p) | inr q ↦ let k = (is_limited_iff sql).1 q in ground arith ],
)

positive_iff : (k : ℕ) → (ltb 0 k ≡ true) ↔ (0 < k)
positive_iff k = (λ h. ground arith, λ h. ground arith)

not_iff : (b : Bool) → (not b ≡ true) ↔ (b ≡ false)
not_iff true = (λ h. cc, λ h. cc)
not_iff false = (λ h. refl, λ h. refl)

auto_limit_parsed-Limits :
    (sql : Text) (n : ℕ) (stmt : Stmt) → Limits sql n (some stmt) (auto_limit_parsed sql n stmt)
unfolding auto_limit_parsed is_limited
auto_limit_parsed-Limits sql n (select_stmt s) =
    let same = or_else_IsLimited_iff (ltb 0 (limit s)) sql (0 < limit s) (positive_iff (limit s)) in
    if-Limits (ltb 0 (limit s) || is_limited sql) sql (with_limit (trim_cutset sql) n) n
      (some (select_stmt s)) same.0 same.1 (cutset-IsAppended sql n)
auto_limit_parsed-Limits sql n (union_stmt left right all) =
    let same = positive_iff (limit left) in
    if-Limits (ltb 0 (limit left)) sql (with_limit (trim_cutset sql) n) n
      (some (union_stmt left right all)) same.0 same.1 (cutset-IsAppended sql n)

auto_limit_word-Limits : (sql : Text) (n : ℕ) → Limits sql n none (auto_limit_word sql n)
unfolding auto_limit_word is_limited
auto_limit_word-Limits sql n =
    let known = one_of (to_upper (first_word sql)) limitable in
    let same = or_else_IsLimited_iff (not known) sql (known ≡ false) (not_iff known) in
    if-Limits (not known || is_limited sql) sql (with_limit (trim_space (trim_semicolon sql)) n) n
      none same.0 same.1 (semicolon-IsAppended sql n)

-- Whatever the parser answers: AutoLimit returns the text without the white space around it as it is
-- exactly where it counts as limited or as no query, by the limit of the first SELECT that the parser
-- reads, by a LIMIT outside of all parentheses with white space behind it, or, where the parser gives
-- up, by its first word. Everywhere else it returns the text, from whose ends white space and
-- semicolons alone are taken, with LIMIT and digits that spell the given number behind it, at the
-- depth of parentheses at which the text ends. Of a union, LIMIT in the text does not count.
pub auto_limit-Limits :
    (parse : Text → Option Stmt) (sql : Text) (n : ℕ)
    → Limits (trim_space sql) n (parse (trim_space sql)) (auto_limit parse sql n)
unfolding auto_limit
auto_limit-Limits parse sql n = elim (Option-cases (parse (trim_space sql))) [
  | inl e ↦ rw (e, auto_limit) (auto_limit_word-Limits (trim_space sql) n)
  | inr (stmt, e) ↦ rw (e, auto_limit) (auto_limit_parsed-Limits (trim_space sql) n stmt)
]
