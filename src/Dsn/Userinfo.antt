-- ===== src/Dsn/Userinfo.antt =====
-- `escapeUserinfo` of src/internal/dsn/dsn.go leaves a userinfo that a URL may hold, and changes none
-- that it leaves.
use dbexplain.Prelude.{
  ℕ, zero, suc, ◌/◌, ◌%◌, ◌<◌, ◌==◌, ◌&&◌, true, false, [], ◌∷◌, ◌++◌, All, Bool-cases, ◌≡◌, inl,
  inr, refl, ap, sym, ◌∙◌, arith,
}
use dbexplain.Prelude.Text.{Text}
use dbexplain.Dsn.{
  is_hex, is_userinfo_safe, two_hex, encoded, skip, has_bare_unsafe_from, hex_upper, percent,
  escaped, escape_from,
}

hex_upper-is_hex : (n : ℕ) → n < 16 → is_hex (hex_upper n) ≡ true
unfolding hex_upper is_hex
hex_upper-is_hex n h = ground arith

high_nibble : (c : ℕ) → c < 256 → c / 16 < 16
high_nibble c h = omega arith

low_nibble : (c : ℕ) → c % 16 < 16
low_nibble c = omega arith

percent_unsafe : (c : ℕ) → is_userinfo_safe c ≡ true → (c == b'%') ≡ false
unfolding is_userinfo_safe
percent_unsafe c h = ground (arith, h)

two_hex-escape_from : (s : Text) → two_hex (escape_from 2 s) ≡ two_hex s
unfolding escape_from two_hex
two_hex-escape_from [] = refl
two_hex-escape_from (a ∷ []) = refl
two_hex-escape_from (a ∷ b ∷ s) = refl

escape_encoded :
    (c : ℕ) (s : Text) → encoded c s ≡ true → escape_from 0 (c ∷ s) ≡ c ∷ escape_from 2 s
unfolding escape_from escaped skip
escape_encoded c s e = rw e refl

escape_safe :
    (c : ℕ) (s : Text)
    → encoded c s ≡ false
    → is_userinfo_safe c ≡ true
    → escape_from 0 (c ∷ s) ≡ c ∷ escape_from 0 s
unfolding escape_from escaped skip
escape_safe c s e f = rw (e, f) refl

escape_unsafe :
    (c : ℕ) (s : Text)
    → encoded c s ≡ false
    → is_userinfo_safe c ≡ false
    → escape_from 0 (c ∷ s) ≡ percent c ++ escape_from 0 s
unfolding escape_from escaped skip
escape_unsafe c s e f = rw (e, f) refl

scan_encoded :
    (c : ℕ) (s : Text)
    → encoded c s ≡ true
    → has_bare_unsafe_from 0 (c ∷ s) ≡ has_bare_unsafe_from 2 s
unfolding has_bare_unsafe_from skip
scan_encoded c s e = rw e refl

scan_safe :
    (c : ℕ) (s : Text)
    → encoded c s ≡ false
    → is_userinfo_safe c ≡ true
    → has_bare_unsafe_from 0 (c ∷ s) ≡ has_bare_unsafe_from 0 s
unfolding has_bare_unsafe_from skip
scan_safe c s e f = rw (e, f) refl

scan_unsafe :
    (c : ℕ) (s : Text)
    → encoded c s ≡ false
    → is_userinfo_safe c ≡ false
    → has_bare_unsafe_from 0 (c ∷ s) ≡ true
unfolding has_bare_unsafe_from skip
scan_unsafe c s e f = rw (e, f) refl

not_encoded : (c : ℕ) (s : Text) → is_userinfo_safe c ≡ true → encoded c s ≡ false
unfolding encoded
not_encoded c s f = rw (percent_unsafe c f) refl

encoded-percent :
    (a b : ℕ) (s : Text) → is_hex a ≡ true → is_hex b ≡ true → encoded b'%' (a ∷ b ∷ s) ≡ true
unfolding encoded two_hex
encoded-percent a b s e f = rw (e, f) refl

pub clean :
    (k : ℕ) (s : Text) → All (λ c. c < 256) s → has_bare_unsafe_from k (escape_from k s) ≡ false
unfolding has_bare_unsafe_from escape_from
clean k [] h = refl
clean (suc k) (c ∷ s) (b, h) = clean k s h
clean zero (c ∷ s) (b, h) = elim (Bool-cases (encoded c s)) [
  | inl e ↦
      ap (has_bare_unsafe_from 0) (escape_encoded c s e)
      ∙ scan_encoded c (escape_from 2 s) (ap (λ b. c == b'%' && b) (two_hex-escape_from s) ∙ e)
      ∙ clean 2 s h
  | inr e ↦ elim (Bool-cases (is_userinfo_safe c)) [
    | inl f ↦
        ap (has_bare_unsafe_from 0) (escape_safe c s e f)
        ∙ scan_safe c (escape_from 0 s) (not_encoded c (escape_from 0 s) f) f
        ∙ clean 0 s h
    | inr f ↦
        ap (has_bare_unsafe_from 0) (escape_unsafe c s e f)
        ∙ scan_encoded b'%' (hex_upper (c / 16) ∷ hex_upper (c % 16) ∷ escape_from 0 s) (
            encoded-percent (hex_upper (c / 16)) (hex_upper (c % 16)) (escape_from 0 s)
              (hex_upper-is_hex (c / 16) (high_nibble c b))
              (hex_upper-is_hex (c % 16) (low_nibble c)))
        ∙ clean 0 s h
  ]
]

pub unescaped : (k : ℕ) (s : Text) → has_bare_unsafe_from k s ≡ false → escape_from k s ≡ s
unfolding has_bare_unsafe_from escape_from
unescaped k [] h = refl
unescaped (suc k) (c ∷ s) h = ap (λ t. c ∷ t) (unescaped k s h)
unescaped zero (c ∷ s) h = elim (Bool-cases (encoded c s)) [
  | inl e ↦ escape_encoded c s e ∙ ap (λ t. c ∷ t) (unescaped 2 s (sym (scan_encoded c s e) ∙ h))
  | inr e ↦ elim (Bool-cases (is_userinfo_safe c)) [
    | inl f ↦ escape_safe c s e f ∙ ap (λ t. c ∷ t) (unescaped 0 s (sym (scan_safe c s e f) ∙ h))
    | inr f ↦ absurd (clash (sym (scan_unsafe c s e f) ∙ h))
  ]
]
  where
    clash : true ≡ false → ⊥
    clash e = cc
