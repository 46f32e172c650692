-- ===== src/SqlGuard/Words.antt =====
-- The verbs of src/internal/sqlguard/sqlguard.go, and its cutting of a text into statements and
-- words.
use dbexplain.Prelude.{not, ◌==◌, List, [], ◌∷◌, map, keep, is_empty, if◌then◌else◌}
use dbexplain.Prelude.Text.{Text, codes, split, trim_space}
use dbexplain.Policy.Sql.{is_blank}

unfoldable pub write_ops : List Text
write_ops = map codes (
    "INSERT" ∷ "UPDATE" ∷ "DELETE" ∷ "DROP" ∷ "ALTER" ∷ "CREATE" ∷ "TRUNCATE" ∷ "RENAME" ∷ "REPLACE"
    ∷ "GRANT" ∷ "REVOKE" ∷ "MERGE" ∷ "UPSERT" ∷ "LOAD" ∷ "IMPORT" ∷ "EXPORT" ∷ "ANALYZE" ∷ "REINDEX"
    ∷ "KILL" ∷ "SHUTDOWN" ∷ "FLUSH" ∷ "SET" ∷ "RESET" ∷ "INSTALL" ∷ "UNINSTALL" ∷ "CALL" ∷ "PURGE"
    ∷ [])

unfoldable pub read_ops : List Text
read_ops = map codes ("SELECT" ∷ "WITH" ∷ "SHOW" ∷ "DESCRIBE" ∷ "DESC" ∷ "PRAGMA" ∷ "CHECK" ∷ [])

-- `splitStatements`
unfoldable pub split_statements : Text → List Text
unfolding split
split_statements sql = keep (λ p. not (is_empty p)) (map trim_space (split sql b';'))

-- The text up to its first blank.
abbrev pub until_blank : Text → Text
until_blank [] = []
until_blank (c ∷ s) = if is_blank c then [] else c ∷ until_blank s

abbrev pub drop_paren : Text → Text
drop_paren [] = []
drop_paren (c ∷ s) = if c == b'(' then trim_space s else c ∷ s

-- `firstWord`: one opening parenthesis in front does not count.
abbrev pub first_word : Text → Text
first_word s = until_blank (drop_paren (trim_space s))

-- `skipSpaces`, as what is left of the text.
abbrev pub skip_spaces : Text → Text
skip_spaces [] = []
skip_spaces (c ∷ s) = if is_blank c then skip_spaces s else c ∷ s
