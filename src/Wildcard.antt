-- ===== src/Wildcard.antt =====
-- What a wildcard pattern means, with no search order in it: a list of tokens and the texts that
-- they match. The matchers of policy/policy.go and connector/filequery/evaluator.go refine it.
use mathlib.Core.Path.{subst}
use dbexplain.Prelude.{
  ℕ, ◌≡◌, refl, Bool, true, false, ◌&&◌, ◌||◌, List, [], ◌∷◌, Option, none, some, arith, ◌==◌, ◌↔◌,
  ◌⊎◌, inl, inr, ==_iff, is_empty, if◌then◌else◌,
}
use dbexplain.Prelude.Text.{Text}

pub data Token : Type 0 where
  literal : ℕ → Token
  any_byte : Token
  star : Token

pub data Matches : List Token → Text → Type 0 where
  empty : Matches [] []
  byte : {p : List Token} {s : Text} (c : ℕ) → Matches p s → Matches (literal c ∷ p) (c ∷ s)
  one : {p : List Token} {s : Text} (c : ℕ) → Matches p s → Matches (any_byte ∷ p) (c ∷ s)
  leave : {p : List Token} {s : Text} → Matches p s → Matches (star ∷ p) s
  take : {p : List Token} {s : Text} (c : ℕ) → Matches (star ∷ p) s → Matches (star ∷ p) (c ∷ s)

-- The text matches the pattern that was read; an unreadable pattern is matched by nothing.
abbrev pub MatchesRead : Option (List Token) → Text → Type 0
MatchesRead none s = ⊥
MatchesRead (some p) s = Matches p s

-- One more token in front of a pattern that was read.
abbrev pub cons_token : Token → Option (List Token) → Option (List Token)
cons_token t none = none
cons_token t (some p) = some (t ∷ p)

-- The remaining text begins with a byte of the test, and `next` takes what follows it.
abbrev pub eat : (ℕ → Bool) → (Text → Bool) → Text → Bool
eat test next [] = false
eat test next (c ∷ s) = test c && next s

-- `next` takes the text, or the text less some first bytes.
unfoldable pub try_suffixes : (Text → Bool) → Text → Bool
try_suffixes next [] = next []
try_suffixes next (c ∷ s) = next (c ∷ s) || try_suffixes next s

-- `f` decides the language of `p`.
abbrev pub Decides : (Text → Bool) → Option (List Token) → Type 0
Decides f p = (s : Text) → (f s ≡ true) ↔ MatchesRead p s

pub is_empty-Decides : Decides is_empty (some [])
is_empty-Decides [] = (λ _. empty, λ _. refl)
is_empty-Decides (c ∷ s) = (λ h. cc, λ m. elim m [ ])

pub false-Decides : Decides (λ _. false) none
false-Decides s = (λ h. cc, λ m. absurd m)

Matches-byte_inv :
    {c d : ℕ} {p : List Token} {s : Text} → Matches (literal d ∷ p) (c ∷ s) → (c ≡ d) × Matches p s
Matches-byte_inv (byte c m) = (refl, m)

Matches-one_inv : {c : ℕ} {p : List Token} {s : Text} → Matches (any_byte ∷ p) (c ∷ s) → Matches p s
Matches-one_inv (one c m) = m

&&-true : {a b : Bool} → a && b ≡ true → (a ≡ true) × (b ≡ true)
&&-true {a} {b} h = ground arith

pub eat-literal :
    (d : ℕ) (f : Text → Bool) (p : Option (List Token))
    → Decides f p
    → Decides (eat (λ c. c == d) f) (cons_token (literal d) p)
eat-literal d f none h [] = (λ e. cc, λ m. absurd m)
eat-literal d f (some p) h [] = (λ e. cc, λ m. elim m [ ])
eat-literal d f none h (c ∷ s) = (λ e. (h s).0 (&&-true e).1, λ m. absurd m)
eat-literal d f (some p) h (c ∷ s) = (
  λ e.
      let q = (==_iff c d).0 (&&-true e).0 in
      subst (λ x. Matches (literal x ∷ p) (c ∷ s)) q (byte c ((h s).0 (&&-true e).1)),
  λ m. let (q, n) = Matches-byte_inv m in rw ((==_iff c d).1 q) ((h s).1 n),
)

pub eat-any :
    (f : Text → Bool) (p : Option (List Token))
    → Decides f p
    → Decides (eat (λ _. true) f) (cons_token any_byte p)
eat-any f none h [] = (λ e. cc, λ m. absurd m)
eat-any f (some p) h [] = (λ e. cc, λ m. elim m [ ])
eat-any f none h (c ∷ s) = h s
eat-any f (some p) h (c ∷ s) = (λ e. one c ((h s).0 e), λ m. (h s).1 (Matches-one_inv m))

||-true : {a b : Bool} → a || b ≡ true → (a ≡ true) ⊎ (b ≡ true)
||-true {a} {b} h = ground arith

||-right : (a b : Bool) → b ≡ true → a || b ≡ true
||-right a b h = ground arith

Matches-star_inv :
    {c : ℕ} {p : List Token} {s : Text}
    → Matches (star ∷ p) (c ∷ s)
    → Matches p (c ∷ s) ⊎ Matches (star ∷ p) s
Matches-star_inv (leave m) = inl m
Matches-star_inv (take c m) = inr m

Matches-star_end : {p : List Token} → Matches (star ∷ p) [] → Matches p []
Matches-star_end (leave m) = m

try_suffixes_sound :
    (f : Text → Bool) (p : List Token)
    → Decides f (some p)
    → (s : Text) → try_suffixes f s ≡ true
    → Matches (star ∷ p) s
unfolding try_suffixes
try_suffixes_sound f p h [] e = leave ((h []).0 e)
try_suffixes_sound f p h (c ∷ s) e = elim (||-true e) [
  | inl now ↦ leave ((h (c ∷ s)).0 now)
  | inr later ↦ take c (try_suffixes_sound f p h s later)
]

try_suffixes_complete :
    (f : Text → Bool) (p : List Token)
    → Decides f (some p)
    → (s : Text) → Matches (star ∷ p) s
    → try_suffixes f s ≡ true
unfolding try_suffixes
try_suffixes_complete f p h [] m = (h []).1 (Matches-star_end m)
try_suffixes_complete f p h (c ∷ s) m = elim (Matches-star_inv m) [
  | inl now ↦ rw ((h (c ∷ s)).1 now)
  | inr later ↦ ||-right _ _ (try_suffixes_complete f p h s later)
]

try_suffixes-none : (f : Text → Bool) → Decides f none → (s : Text) → try_suffixes f s ≡ true → ⊥
unfolding try_suffixes
try_suffixes-none f h [] e = (h []).0 e
try_suffixes-none f h (c ∷ s) e = elim (||-true e) [
  | inl now ↦ (h (c ∷ s)).0 now
  | inr later ↦ try_suffixes-none f h s later
]

pub try_suffixes-Decides :
    (f : Text → Bool) (p : Option (List Token))
    → Decides f p
    → Decides (try_suffixes f) (cons_token star p)
try_suffixes-Decides f none h s = (try_suffixes-none f h s, λ m. absurd m)
try_suffixes-Decides f (some p) h s = (try_suffixes_sound f p h s, try_suffixes_complete f p h s)

-- A branch decides the pattern of the same branch.
pub if-Decides :
    (b : Bool) (f g : Text → Bool) (p q : Option (List Token))
    → Decides f p
    → Decides g q
    → Decides (λ s. if b then f s else g s) (if b then p else q)
if-Decides true f g p q h k = h
if-Decides false f g p q h k = k

Matches-star : (s : Text) → Matches (star ∷ []) s
Matches-star [] = leave empty
Matches-star (c ∷ s) = take c (Matches-star s)

pub true-Decides : Decides (λ _. true) (some (star ∷ []))
true-Decides s = (λ _. Matches-star s, λ _. refl)
