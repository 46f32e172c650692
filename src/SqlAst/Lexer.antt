-- ===== src/SqlAst/Lexer.antt =====
-- src/internal/sqlast/lexer.go: `Lexer`, `Next` with its readers, and `Tokenize`. The input from the
-- position on stands for the input and the index into it. The texts of error tokens are not modelled.
pub mod Scan
pub mod Progress
use dbexplain.Prelude.{
  ℕ, zero, suc, ◌+◌, ◌-◌, Bool, true, false, not, ◌&&◌, ◌||◌, ◌==◌, leb, map, List, [], ◌∷◌, Option,
  none, some, if◌then◌else◌, length, ◌≡◌, refl,
}
use dbexplain.Prelude.Text.{Text, codes, to_upper, upper_byte}
use dbexplain.Prelude.Map.{lookup}
use dbexplain.SqlAst.TokenType
use dbexplain.SqlAst.Result.{Result, ok, failed, out_of_fuel, bind}

pub record Token : Type 0 where
  pub type : ℕ
  pub value : Text
  pub pos : ℕ

pub record Lexer : Type 0 where
  pub input : Text
  pub pos : ℕ

abbrev pub is_digit : ℕ → Bool
is_digit c = leb b'0' c && leb c b'9'

abbrev pub is_letter : ℕ → Bool
is_letter c = (leb b'a' c && leb c b'z') || (leb b'A' c && leb c b'Z')

abbrev pub is_ident_byte : ℕ → Bool
is_ident_byte c = is_letter c || (is_digit c || c == b'_')

-- `skipWhitespace`: what is left
abbrev pub is_lexer_space : ℕ → Bool
is_lexer_space c = c == 32 || (c == 9 || (c == 10 || c == 13))

unfoldable pub skip_whitespace : Text → Text
skip_whitespace [] = []
skip_whitespace (c ∷ s) = if is_lexer_space c then skip_whitespace s else c ∷ s

-- The readers return what they read and what is left.
unfoldable pub read_ident : Text → Text × Text
read_ident [] = ([], [])
read_ident (c ∷ s) =
    let (w, rest) = read_ident s in if is_ident_byte c then (c ∷ w, rest) else ([], c ∷ s)

-- peekAfterOne() is a digit
abbrev pub digit_next : Text → Bool
digit_next [] = false
digit_next (c ∷ s) = is_digit c

-- The loop of `readNumber`, with `isFloat`.
unfoldable pub read_number : Bool → Text → Text × Text
read_number is_float [] = ([], [])
read_number is_float (c ∷ s) =
    let (w, rest) = read_number is_float s in
    let (fraction, rest') = read_number true s in
    if is_digit c
    then (c ∷ w, rest)
    else if c == b'.' && (not is_float && digit_next s)
    then (c ∷ fraction, rest')
    else ([], c ∷ s)

-- One byte more in front of a value that is read.
abbrev pub prefixed : ℕ → Option (Text × Text) → Option (Text × Text)
prefixed c none = none
prefixed c (some (w, rest)) = some (c ∷ w, rest)

-- The loop of `readString` and `readDoubleQuotedString`, behind the opening quote: a quote that is
-- doubled is one of the value. `none` is the string that does not end.
unfoldable pub read_quoted : ℕ → Text → Option (Text × Text)
read_quoted q [] = none
read_quoted q (c ∷ []) = if c == q then some ([], []) else none
read_quoted q (c ∷ d ∷ s) =
    let other = read_quoted q (d ∷ s) in
    let doubled = read_quoted q s in
    if c == q then (if d == q then prefixed q doubled else some ([], d ∷ s)) else prefixed c other

-- The type and the value of a token, and what is left behind it.
pub record Scanned : Type 0 where
  pub type : ℕ
  pub value : Text
  pub rest : Text

abbrev pub scanned : ℕ → Text → Text → Scanned
scanned type value rest = record { type = type; value = value; rest = rest }

abbrev pub scan_error : Text → Scanned
scan_error rest = scanned TokenType.error [] rest

abbrev pub keyword_or_ident : Text → Text → Option ℕ → Scanned
keyword_or_ident word rest (some type) = scanned type (to_upper word) rest
keyword_or_ident word rest none = scanned TokenType.ident word rest

abbrev pub word_token : Text → Text → Scanned
word_token word rest = keyword_or_ident word rest (lookup (to_upper word) TokenType.keywords)

abbrev pub string_token : Text → Option (Text × Text) → Scanned
string_token s (some (value, rest)) = scanned TokenType.string value rest
string_token s none = scan_error s

-- One byte, or two if the next one is that of the longer operator.
abbrev pub operator : ℕ → ℕ → Text → Scanned
operator type c s = scanned type (c ∷ []) s

unfoldable pub scan_less : Text → Scanned
scan_less [] = operator TokenType.lt b'<' []
scan_less (d ∷ s) =
    if d == b'='
    then scanned TokenType.le (codes "<=") s
    else if d == b'>'
    then scanned TokenType.ne (codes "<>") s
    else operator TokenType.lt b'<' (d ∷ s)

unfoldable pub scan_greater : Text → Scanned
scan_greater [] = operator TokenType.gt b'>' []
scan_greater (d ∷ s) =
    if d == b'=' then scanned TokenType.ge (codes ">=") s else operator TokenType.gt b'>' (d ∷ s)

-- `!` alone is an error, and is not passed.
unfoldable pub scan_bang : Text → Scanned
scan_bang [] = scan_error (b'!' ∷ [])
scan_bang (d ∷ s) =
    if d == b'=' then scanned TokenType.ne (codes "!=") s else scan_error (b'!' ∷ d ∷ s)

-- The bytes that are a token by themselves.
abbrev pub single_bytes : List (ℕ × ℕ)
single_bytes =
    (b'=', TokenType.eq)
    ∷ (b'+', TokenType.plus)
    ∷ (b'-', TokenType.minus)
    ∷ (b'*', TokenType.star)
    ∷ (b'/', TokenType.slash)
    ∷ (b'(', TokenType.lparen)
    ∷ (b')', TokenType.rparen)
    ∷ (b',', TokenType.comma)
    ∷ (b'.', TokenType.dot)
    ∷ (b';', TokenType.semicolon)
    ∷ []

unfoldable pub single_type : ℕ → List (ℕ × ℕ) → Option ℕ
single_type c [] = none
single_type c ((b, type) ∷ l) = if c == b then some type else single_type c l

unfoldable pub scan_other : ℕ → Text → Scanned
unfolding scan_less scan_greater scan_bang read_quoted read_number read_ident upper_byte lookup
scan_other c s =
    if c == b'<'
    then scan_less s
    else if c == b'>'
    then scan_greater s
    else if c == b'!'
    then scan_bang s
    else if c == b'\''
    then string_token s (read_quoted c s)
    else if c == b'"'
    then string_token s (read_quoted c s)
    else if is_digit c
    then scanned TokenType.number (read_number false (c ∷ s)).0 (read_number false (c ∷ s)).1
    else if is_letter c || c == b'_'
    then word_token (read_ident (c ∷ s)).0 (read_ident (c ∷ s)).1
    else scan_error s

abbrev pub scan_as : ℕ → Text → Option ℕ → Scanned
scan_as c s (some type) = operator type c s
scan_as c s none = scan_other c s

-- The switch of `Next` on the first byte.
unfoldable pub scan : ℕ → Text → Scanned
unfolding scan_other single_type
scan c s = scan_as c s (single_type c single_bytes)

abbrev pub token_at : ℕ → Scanned → Token
token_at pos t = record { type = t.type; value = t.value; pos = pos }

-- `Next`, from behind the white space on.
unfoldable pub next_at : ℕ → Text → Token × Lexer
unfolding scan
next_at pos [] =
    (record { type = TokenType.eof; value = []; pos = pos }, record { input = []; pos = pos })
next_at pos (c ∷ s) =
    let t = scan c s in
    (token_at pos t, record { input = t.rest; pos = pos + (length (c ∷ s) - length t.rest) })

unfoldable pub next : Lexer → Token × Lexer
unfolding next_at skip_whitespace
next l = let s = skip_whitespace l.input in next_at (l.pos + (length l.input - length s)) s

-- The loop of `Tokenize`, whose caller drops the tokens before an error.
unfoldable pub tokens_from : ℕ → Lexer → Result (List Token)
unfolding next
tokens_from zero l = out_of_fuel
tokens_from (suc f) l =
    let (t, l') = next l in
    let more = bind (tokens_from f l') λ ts. ok (t ∷ ts) in
    if t.type == TokenType.eof
    then ok (t ∷ [])
    else if t.type == TokenType.error
    then failed
    else more

unfoldable pub new_lexer : Text → Lexer
new_lexer sql = record { input = sql; pos = 0 }

-- Every token but the last takes a byte at least.
unfoldable pub tokenize : Text → Result (List Token)
unfolding tokens_from new_lexer
tokenize sql = tokens_from (suc (length sql)) (new_lexer sql)
