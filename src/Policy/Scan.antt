-- ===== src/Policy/Scan.antt =====
-- The regular expressions of src/internal/policy/policy.go, by hand: leftmost matches that do not
-- overlap, as Go's regexp finds them.
use dbexplain.Prelude.{
  ℕ, zero, suc, ◌-◌, Bool, false, not, ◌==◌, ◌&&◌, ◌||◌, leb, List, [], ◌∷◌, ◌++◌, Option, none,
  some, is_empty, ◌≡◌, refl, if◌then◌else◌, length, drop, map, String, ltb,
}
use dbexplain.Prelude.Text.{Text, codes, has_prefix, to_upper, upper_byte}
use dbexplain.Policy.Sql.{
  strip_sql_comments, normalize_whitespace, normalize_identifiers, is_sql_keyword, is_numeric,
}
use dbexplain.Policy.Extract.{add_new, add_tables}

-- \w and \s
abbrev is_word : ℕ → Bool
is_word c =
    (leb b'a' c && leb c b'z')
    || (leb b'A' c && leb c b'Z')
    || (leb b'0' c && leb c b'9')
    || c == b'_'

abbrev pub is_white : ℕ → Bool
is_white c = c == 32 || c == 9 || c == 10 || c == 12 || c == 13

-- The longest run of word bytes, and what follows it.
abbrev word_run : Text → Text × Text
word_run [] = ([], [])
word_run (c ∷ s) = let (w, rest) = word_run s in if is_word c then (c ∷ w, rest) else ([], c ∷ s)

abbrev pub skip_white : Text → Text
skip_white [] = []
skip_white (c ∷ s) = if is_white c then skip_white s else c ∷ s

-- \s+ at the head
abbrev some_white : Text → Option Text
some_white [] = none
some_white (c ∷ s) = if is_white c then some (skip_white s) else none

-- A literal at the head, and what follows it.
abbrev pub after : Text → Text → Option Text
after p s = if has_prefix s p then some (drop (length p) s) else none

abbrev pub first_after : List Text → Text → Text → Option Text
first_after [] shape s = none
first_after (k ∷ ks) shape s =
    if has_prefix shape k then some (drop (length k) s) else first_after ks shape s

abbrev pub bind : {A B : Type 0} → Option A → (A → Option B) → Option B
bind none f = none
bind (some a) f = f a

-- (?:\.\w+)?
abbrev dotted_word : Text → Text × Text
dotted_word [] = ([], [])
dotted_word (c ∷ s) =
    let (w, rest) = word_run s in
    if c == b'.' && not (is_empty w) then (c ∷ w, rest) else ([], c ∷ s)

abbrev qualified : Text → Option (Text × Text)
qualified s =
    let (w, rest) = word_run s in
    let (d, rest') = dotted_word rest in if is_empty w then none else some (w ++ d, rest')

abbrev table_keywords : List String
table_keywords = "FROM" ∷ "JOIN" ∷ "UPDATE" ∷ "INTO" ∷ "TABLE" ∷ []

-- (?i)(?:FROM|JOIN|UPDATE|INTO|TABLE)\s+(\w+(?:\.\w+)?) at the head
table_at : Text → Option (Text × Text)
unfolding upper_byte
table_at s =
    bind (first_after (map codes table_keywords) (to_upper s) s)
      λ s1. bind (some_white s1) λ s2. qualified s2

-- The matches behind a word boundary: `prev` tells whether the byte before is a word byte, and
-- `skip` counts the bytes of the last match that are still to pass.
table_matches : ℕ → Bool → Text → List Text
unfolding table_at
table_matches skip prev [] = []
table_matches (suc skip) prev (c ∷ s) = table_matches skip (is_word c) s
table_matches zero prev (c ∷ s) = elim (if prev then none else table_at (c ∷ s)) [
  | none ↦ table_matches zero (is_word c) s
  | some (full, rest) ↦ full ∷ table_matches (length s - length rest) (is_word c) s
]

-- The fallback of `extractTableNames`.
unfoldable pub scan_tables : Text → List Text
unfolding normalize_whitespace normalize_identifiers table_matches add_tables
scan_tables clean =
    add_tables (table_matches zero false (normalize_identifiers (normalize_whitespace clean))) []

-- (?:\.\w+)+ at the head, as the list of the words
abbrev more_words : ℕ → Text → List Text × Text
more_words zero s = ([], s)
more_words (suc f) s =
    let (w, rest) = dotted_word s in
    let (ws, rest') = more_words f rest in if is_empty w then ([], s) else (drop 1 w ∷ ws, rest')

-- \w+(?:\.\w+)+ at the head: its words. Each further word takes two bytes at least.
abbrev ref_at : Text → Option (List Text × Text)
ref_at s =
    let (w, rest) = word_run s in
    let (ws, rest') = more_words (length rest) rest in
    if is_empty w || is_empty ws then none else some (w ∷ ws, rest')

ref_matches : ℕ → Text → List (List Text)
ref_matches skip [] = []
ref_matches (suc skip) (c ∷ s) = ref_matches skip s
ref_matches zero (c ∷ s) = elim (ref_at (c ∷ s)) [
  | none ↦ ref_matches zero s
  | some (ws, rest) ↦ ws ∷ ref_matches (length s - length rest) s
]

abbrev join_dots : List Text → Text
join_dots [] = []
join_dots (w ∷ []) = w
join_dots (w ∷ v ∷ ws) = w ++ codes "." ++ join_dots (v ∷ ws)

abbrev last_word : List Text → Text
last_word [] = []
last_word (w ∷ []) = w
last_word (w ∷ v ∷ ws) = last_word (v ∷ ws)

abbrev head_word : List Text → Text
head_word [] = []
head_word (w ∷ ws) = w

-- The last two words, of three or more.
abbrev last_two : List Text → List Text
last_two (w ∷ v ∷ []) = w ∷ v ∷ []
last_two (w ∷ ws) = last_two ws
last_two [] = []

-- The body of the loop over the matches.
add_ref : List Text → List Text → List Text
unfolding is_sql_keyword is_numeric add_new
add_ref parts seen =
    if is_sql_keyword (head_word parts) || is_numeric (last_word parts)
    then seen
    else add_new (join_dots parts)
        (if ltb 2 (length parts) then add_new (join_dots (last_two parts)) seen else seen)

add_matches : List (List Text) → List Text → List Text
unfolding add_ref
add_matches [] seen = seen
add_matches (m ∷ ms) seen = add_matches ms (add_ref m seen)

-- The fallback of `extractColumnRefs`.
unfoldable pub scan_refs : Text → List Text
unfolding strip_sql_comments normalize_whitespace normalize_identifiers ref_matches add_matches
scan_refs sql =
    add_matches
      (ref_matches zero (normalize_identifiers (normalize_whitespace (strip_sql_comments sql)))) []

unquoted_table :
    scan_tables (codes "UPDATE  `a`.b SET x = 1; select * from c")
    ≡ codes "a.b" ∷ codes "b" ∷ codes "a" ∷ codes "c" ∷ []
unfolding scan_tables
unquoted_table = refl

three_parts : scan_refs (codes "SHOW x db.t.c /* y.z */ 1.5") ≡ codes "t.c" ∷ codes "db.t.c" ∷ []
unfolding scan_refs
three_parts = refl
