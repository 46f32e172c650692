-- ===== src/SqlGuard/Cte.antt =====
-- `containsCTEWrite` of src/internal/sqlguard/sqlguard.go. The index of the source's loop is the
-- rest of the text; where the loop moves its index, `skip` counts the bytes that it passes over.
use dbexplain.Prelude.{
  ℕ, zero, suc, ◌+◌, Bool, true, false, not, ◌==◌, ◌&&◌, List, [], ◌∷◌, map, Option, none, some,
  is_empty, any, if◌then◌else◌, drop, ◌≡◌, refl,
}
use dbexplain.Prelude.Text.{
  Text, codes, trim_space, to_upper, upper_byte, has_prefix, one_of, index,
}
use dbexplain.SqlGuard.Words.{first_word, write_ops}

abbrev pub write_verbs : List Text
write_verbs = map codes ("INSERT " ∷ "UPDATE " ∷ "DELETE " ∷ "DROP " ∷ "ALTER " ∷ "TRUNCATE " ∷ [])

abbrev pub verb_here : Text → Bool
verb_here s = any (has_prefix s) write_verbs

-- The check of the main query, behind the last closed body.
pub main_is_write : Text → Bool
main_is_write last = not (is_empty last) && one_of (first_word (trim_space last)) write_ops

-- The bytes between a comma and the body of the next table, both the name and the parenthesis
-- counted as the source counts them, from the first byte that is not white space.
pub next_body : Text → Option ℕ
unfolding index
next_body trimmed = elim (index trimmed (codes " AS ")) [
  | none ↦ none
  | some a ↦ elim (index (drop (a + 4) trimmed) (codes "(")) [
    | none ↦ none
    | some b ↦ some (a + 4 + b)
  ]
]

-- `last` is the text behind the last body that was closed, empty before the first.
pub cte_loop : ℕ → ℕ → Text → Text → Bool
cte_loop skip depth last [] = main_is_write last
cte_loop (suc skip) depth last (c ∷ s) = cte_loop skip depth last s
cte_loop zero depth last (c ∷ s) =
    let deeper = cte_loop zero (suc depth) last s in
    let same = cte_loop zero depth last s in
    let next = λ (skip : ℕ). cte_loop skip 1 s s in
    let trimmed = trim_space s in
    if c == b'('
    then deeper
    else if c == b')'
    then (elim depth [
      | zero ↦ false
      | suc d ↦ elim d [
        | zero ↦
            if has_prefix trimmed (codes ",")
            then (elim (next_body trimmed) [ none ↦ false | some skip ↦ next skip ])
            else main_is_write s
        | suc e ↦ cte_loop zero (suc e) last s
      ]
    ])
    else if depth == 1 && verb_here (c ∷ s)
    then true
    else same

unfoldable pub contains_cte_write : Text → Bool
unfolding index upper_byte main_is_write next_body cte_loop
contains_cte_write normalized =
    let upper = to_upper normalized in
    elim (index upper (codes " AS ")) [
      | none ↦ false
      | some a ↦ elim (index (drop (a + 4) upper) (codes "(")) [
        | none ↦ false
        | some b ↦ cte_loop zero 0 [] (drop (a + 4 + b) upper)
      ]
    ]

write_in_body :
    contains_cte_write (codes "with x as (delete from t returning id) select * from x") ≡ true
unfolding contains_cte_write write_ops
write_in_body = refl

-- A write in the body of a second table is not seen.
write_in_second_body :
    contains_cte_write
      (codes "with a as (select 1), b as (delete from t returning id) select * from b")
    ≡ false
unfolding contains_cte_write write_ops
write_in_second_body = refl
