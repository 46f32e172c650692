-- ===== src/SqlGuard/Limit/Decimal.antt =====
-- The number that `AutoLimit` of src/internal/sqlguard/sqlguard.go prints with %d.
use dbexplain.Prelude.{
  ℕ, zero, suc, ◌+◌, ◌-◌, ◌*◌, ◌/◌, ◌%◌, ◌<◌, ◌==◌, ◌&&◌, leb, [], ◌∷◌, Option, none, some,
  if◌then◌else◌, ◌≡◌, ap, ◌∙◌, inl, inr, Bool-cases, arith,
}
use dbexplain.Prelude.Text.{Text}
use dbexplain.SqlGuard.Limit.{digits, decimal}

-- The number that a text of decimal digits spells behind `n`.
abbrev pub spelled : ℕ → Text → Option ℕ
spelled n [] = some n
spelled n (c ∷ s) =
    let rest = spelled (n * 10 + (c - 48)) s in if leb 48 c && leb c 57 then rest else none

spelled-digit : (n d : ℕ) (s : Text) → d < 10 → spelled n ((48 + d) ∷ s) ≡ spelled (n * 10 + d) s
spelled-digit n d s h = ground arith

spelled-digits : (f n : ℕ) (s : Text) → n < f → spelled 0 (digits f n s) ≡ spelled n s
spelled-digits zero n s h = absurd (omega arith)
spelled-digits (suc f) n s h = elim (Bool-cases (n / 10 == 0)) [
  | inl e ↦ rw e (spelled-digit 0 (n % 10) s (omega arith) ∙ ap (λ m. spelled m s) (ground arith))
  | inr e ↦ rw e (
      spelled-digits f (n / 10) ((48 + n % 10) ∷ s) (ground arith)
      ∙ spelled-digit (n / 10) (n % 10) s (omega arith)
      ∙ ap (λ m. spelled m s) (omega arith))
]

-- What is printed spells the number.
pub spelled-decimal : (n : ℕ) → spelled 0 (decimal n) ≡ some n
unfolding decimal
spelled-decimal n = spelled-digits (suc n) n [] (omega arith)
