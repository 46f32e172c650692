-- ===== src/Prelude/Text.antt =====
-- Go strings as lists of bytes, and the functions of Go's package strings that the program calls.
-- Case folding and white space are those of ASCII.
use Prim.Native.Char.{code}
use Prim.Native.Nat.{ℕ, suc, ◌+◌, ◌-◌}
use Prim.Native.String.{String}
use mathlib.Core.Path.{◌≡◌, refl}
use mathlib.Core.Logic.{◌↔◌}
use mathlib.Core.Bool.{Bool, true, false, ◌&&◌, ◌||◌}
use mathlib.Core.List.{List, [], ◌∷◌, map}
use mathlib.Core.Option.{Option, none, some}
use native.Mathlib.Omega.{arith}
use dbexplain.Prelude.Tests.{leb, ◌==◌, if◌then◌else◌}
use dbexplain.Prelude.Lists.{is_empty}

abbrev pub Text : Type 0
Text = List ℕ

-- The bytes of an ASCII literal.
abbrev pub codes : String → Text
codes String.[] = []
codes (String.◌∷◌ c s) = code c ∷ codes s

-- a == b
abbrev pub text_eq : Text → Text → Bool
text_eq [] [] = true
text_eq (a ∷ s) (b ∷ t) = (a == b) && text_eq s t
text_eq _ _ = false

-- strings.ToUpper, strings.ToLower
unfoldable pub upper_byte : ℕ → ℕ
upper_byte c = if leb b'a' c && leb c b'z' then c - 32 else c

unfoldable pub lower_byte : ℕ → ℕ
lower_byte c = if leb b'A' c && leb c b'Z' then c + 32 else c

abbrev pub to_upper : Text → Text
to_upper = map upper_byte

abbrev pub to_lower : Text → Text
to_lower = map lower_byte

-- strings.EqualFold
abbrev pub equal_fold : Text → Text → Bool
equal_fold s t = text_eq (to_lower s) (to_lower t)

-- unicode.IsSpace
abbrev pub is_unicode_space : ℕ → Bool
is_unicode_space c = (leb 9 c && leb c 13) || c == 32

-- strings.TrimSpace
abbrev pub trim_left : Text → Text
trim_left [] = []
trim_left (c ∷ s) = if is_unicode_space c then trim_left s else c ∷ s

abbrev pub trim_cons : ℕ → Text → Text
trim_cons c [] = if is_unicode_space c then [] else c ∷ []
trim_cons c (d ∷ s) = c ∷ d ∷ s

abbrev pub trim_right : Text → Text
trim_right [] = []
trim_right (c ∷ s) = trim_cons c (trim_right s)

abbrev pub trim_space : Text → Text
trim_space s = trim_left (trim_right s)

-- strings.HasPrefix, and what follows the prefix
abbrev pub has_prefix : Text → Text → Bool
has_prefix s [] = true
has_prefix [] (p ∷ ps) = false
has_prefix (c ∷ s) (p ∷ ps) = (c == p) && has_prefix s ps

-- strings.Index
unfoldable pub index : Text → Text → Option ℕ
index [] p = if has_prefix [] p then some 0 else none
index (c ∷ s) p =
    if has_prefix (c ∷ s) p
    then some 0
    else elim (index s p) [ none ↦ none | some i ↦ some (suc i) ]

-- strings.Contains
abbrev pub contains : Text → Text → Bool
contains [] p = has_prefix [] p
contains (c ∷ s) p = has_prefix (c ∷ s) p || contains s p

-- strings.Cut at one byte: what stands before its first occurrence and behind it.
unfoldable pub cut : Text → ℕ → Option (Text × Text)
cut [] b = none
cut (c ∷ s) b =
    if c == b
    then some ([], s)
    else elim (cut s b) [ none ↦ none | some (before, after) ↦ some (c ∷ before, after) ]

-- strings.Split at one byte; the result is never empty.
abbrev pub split_cons : ℕ → List Text → List Text
split_cons c [] = (c ∷ []) ∷ []
split_cons c (p ∷ ps) = (c ∷ p) ∷ ps

unfoldable pub split : Text → ℕ → List Text
split [] b = [] ∷ []
split (c ∷ s) b = let rest = split s b in if c == b then [] ∷ rest else split_cons c rest

-- What follows the last occurrence of a byte; the whole text if there is none.
unfoldable pub after_last : ℕ → Text → Text
unfolding cut
after_last b [] = []
after_last b (c ∷ s) = elim (cut (c ∷ s) b) [ none ↦ c ∷ s | some _ ↦ after_last b s ]

-- The text is one of the list.
abbrev pub one_of : Text → List Text → Bool
one_of s [] = false
one_of s (t ∷ ts) = text_eq s t || one_of s ts

abbrev pub cons_field : ℕ → List Text → List Text
cons_field c [] = (c ∷ []) ∷ []
cons_field c (w ∷ ws) = (c ∷ w) ∷ ws

-- strings.Fields
abbrev pub fields_from : Text → List Text
fields_from [] = [] ∷ []
fields_from (c ∷ s) =
    let ws = fields_from s in if is_unicode_space c then [] ∷ ws else cons_field c ws

abbrev pub non_empty : List Text → List Text
non_empty [] = []
non_empty (w ∷ ws) = let rest = non_empty ws in if is_empty w then rest else w ∷ rest

abbrev pub fields : Text → List Text
fields s = non_empty (fields_from s)

pub text_eq_refl : (s : Text) → text_eq s s ≡ true
text_eq_refl [] = refl
text_eq_refl (a ∷ s) = ground (arith, text_eq_refl s)

pub text_eq→eq : (s t : Text) → text_eq s t ≡ true → s ≡ t
text_eq→eq [] [] h = refl
text_eq→eq [] (b ∷ t) h = cc
text_eq→eq (a ∷ s) [] h = cc
text_eq→eq (a ∷ s) (b ∷ t) h = ground (arith, text_eq→eq s t)

pub text_eq_iff : (s t : Text) → (text_eq s t ≡ true) ↔ (s ≡ t)
text_eq_iff s t = (text_eq→eq s t, λ e. rw e (text_eq_refl t))
