-- ===== src/Prelude/PathMatch.antt =====
-- The Boolean result of Go's path/filepath.Match on a system whose separator is a slash: `*` and `?`
-- match no slash, `[a-z]` and `[^a-z]` are classes, a backslash makes the next byte literal, and a
-- malformed pattern matches nothing.
use Prim.Native.Nat.{ℕ, zero, suc}
use mathlib.Core.Bool.{Bool, true, false, not, xor, ◌&&◌, ◌||◌}
use mathlib.Core.List.{List, [], ◌∷◌, ◌++◌}
use mathlib.Core.Option.{Option, none, some}
use dbexplain.Prelude.Tests.{leb, ltb, ◌==◌, if◌then◌else◌}
use dbexplain.Prelude.Lists.{length}
use dbexplain.Prelude.Text.{Text}

pub data Item : Type 0 where
  star any_byte : Item
  literal : ℕ → Item
  class : Bool → List (ℕ × ℕ) → Item

abbrev escaped_byte : Text → Option (ℕ × Text)
escaped_byte (d ∷ e ∷ s) = some (d, e ∷ s)
escaped_byte _ = none

-- One end of a range: an unescaped `-` or `]` is malformed, and so is a class that ends here.
abbrev range_end : Text → Option (ℕ × Text)
range_end [] = none
range_end (c ∷ s) =
    if c == b'-' || c == b']' then none else escaped_byte (if c == 92 then s else c ∷ s)

abbrev upper_end : ℕ → Text → Option (ℕ × Text)
upper_end lo [] = none
upper_end lo (c ∷ s) = if c == b'-' then range_end s else some (lo, c ∷ s)

abbrev at_close : ℕ → Text → Option Text
at_close n [] = none
at_close n (c ∷ s) = if c == b']' && ltb 0 n then some s else none

-- The ranges of a class, up to the closing bracket.
ranges : ℕ → ℕ → Text → List (ℕ × ℕ) → Option (List (ℕ × ℕ) × Text)
ranges zero n s acc = none
ranges (suc f) n s acc = elim (at_close n s) [
  | some rest ↦ some (acc, rest)
  | none ↦ elim (range_end s) [
    | none ↦ none
    | some (lo, s') ↦ elim (upper_end lo s') [
      | none ↦ none
      | some (hi, s'') ↦ ranges f (suc n) s'' (acc ++ (lo, hi) ∷ [])
    ]
  ]
]

abbrev read_class : Text → Option (Item × Text)
read_class [] = none
read_class (c ∷ s) =
    let negated = c == b'^' in
    elim (ranges (suc (suc (length s))) 0 (if negated then s else c ∷ s) []) [
      | none ↦ none
      | some (rs, rest) ↦ some (class negated rs, rest)
    ]

abbrev read_escape : Text → Option (Item × Text)
read_escape [] = none
read_escape (c ∷ s) = some (literal c, s)

abbrev read_item : ℕ → Text → Option (Item × Text)
read_item c s =
    if c == b'*'
    then some (star, s)
    else if c == b'?'
    then some (any_byte, s)
    else if c == 92
    then read_escape s
    else if c == b'['
    then read_class s
    else some (literal c, s)

items : ℕ → Text → Option (List Item)
items f [] = some []
items zero (c ∷ s) = none
items (suc f) (c ∷ s) = elim (read_item c s) [
  | none ↦ none
  | some (item, rest) ↦ elim (items f rest) [ none ↦ none | some is ↦ some (item ∷ is) ]
]

abbrev in_ranges : List (ℕ × ℕ) → ℕ → Bool
in_ranges [] c = false
in_ranges ((lo, hi) ∷ rs) c = (leb lo c && leb c hi) || in_ranges rs c

accepts : Item → ℕ → Bool
unfolding xor
accepts (literal d) c = c == d
accepts (class negated rs) c = xor (in_ranges rs c) negated
accepts _ c = not (c == b'/')

-- The rest of the pattern is tried where the star stands and behind each byte but a slash.
try_within : (Text → Bool) → Text → Bool
try_within next [] = next []
try_within next (c ∷ s) = next (c ∷ s) || (not (c == b'/') && try_within next s)

step : (ℕ → Bool) → (Text → Bool) → Text → Bool
step test next [] = false
step test next (c ∷ s) = test c && next s

run : List Item → Text → Bool
unfolding step try_within accepts
run [] [] = true
run [] (c ∷ s) = false
run (star ∷ is) s = let next : Text → Bool = run is in try_within next s
run (i ∷ is) s = let next : Text → Bool = run is in step (accepts i) next s

unfoldable pub path_match : Text → Text → Bool
unfolding items ranges run
path_match pattern name = elim (items (length pattern) pattern) [
  | none ↦ false
  | some is ↦ run is name
]
