-- ===== src/Diff/Key.antt =====
-- `extractTable`, `keyInstance` and `keyDB` of src/internal/diff/diff.go: the parts of a key
-- "instance/db/table".
use dbexplain.Prelude.{
  ℕ, zero, suc, Bool, ◌==◌, List, [], ◌∷◌, ◌++◌, none, some, any, ◌≡◌, refl, ap, ◌∙◌, arith,
}
use dbexplain.Prelude.Text.{Text, cut}

-- strings.SplitN at one byte into at most n + 1 parts; the last part holds the rest.
unfoldable pub split_n : ℕ → Text → ℕ → List Text
unfolding cut
split_n zero s b = s ∷ []
split_n (suc n) s b = elim (cut s b) [
  | none ↦ s ∷ []
  | some (before, after) ↦ before ∷ split_n n after b
]

third_or : Text → List Text → Text
third_or key (a ∷ b ∷ c ∷ []) = c
third_or key _ = key

first_or_empty : List Text → Text
first_or_empty (a ∷ _) = a
first_or_empty [] = []

second_or_empty : List Text → Text
second_or_empty (a ∷ b ∷ _) = b
second_or_empty _ = []

unfoldable pub extract_table : Text → Text
unfolding split_n third_or
extract_table key = third_or key (split_n 2 key b'/')

unfoldable pub key_instance : Text → Text
unfolding split_n first_or_empty
key_instance key = first_or_empty (split_n 2 key b'/')

unfoldable pub key_db : Text → Text
unfolding split_n second_or_empty
key_db key = second_or_empty (split_n 2 key b'/')

abbrev pub has_slash : Text → Bool
has_slash = any (λ c. c == b'/')

cut-append : (s t : Text) → has_slash s ≡ Bool.false → cut (s ++ b'/' ∷ t) b'/' ≡ some (s, t)
unfolding cut
cut-append [] t h = refl
cut-append (c ∷ s) t h = ground (arith, cut-append s t)

split_n-append :
    (n : ℕ) (s t : Text)
    → has_slash s ≡ Bool.false
    → split_n (suc n) (s ++ b'/' ∷ t) b'/' ≡ s ∷ split_n n t b'/'
unfolding split_n
split_n-append n s t h = rw (cut-append s t h, split_n) refl

abbrev pub join_key : Text → Text → Text → Text
join_key inst db table = inst ++ (b'/' ∷ (db ++ (b'/' ∷ table)))

split_n-join_key :
    (inst db table : Text)
    → has_slash inst ≡ Bool.false
    → has_slash db ≡ Bool.false
    → split_n 2 (join_key inst db table) b'/' ≡ inst ∷ db ∷ table ∷ []
unfolding split_n
split_n-join_key inst db table h k =
    split_n-append 1 inst (db ++ (b'/' ∷ table)) h
    ∙ ap (λ l. inst ∷ l) (split_n-append 0 db table k)

-- The three parts of a key that is joined with slashes from an instance and a database without a
-- slash and any table name, which may hold slashes, are these three names.
pub key_parts :
    (inst db table : Text)
    → has_slash inst ≡ Bool.false
    → has_slash db ≡ Bool.false
    → (key_instance (join_key inst db table) ≡ inst)
      × (key_db (join_key inst db table) ≡ db)
      × (extract_table (join_key inst db table) ≡ table)
unfolding extract_table key_instance key_db third_or first_or_empty second_or_empty
key_parts inst db table h k =
    let e = split_n-join_key inst db table h k in
    (ap first_or_empty e, ap second_or_empty e, ap (third_or (join_key inst db table)) e)
