-- ===== src/Sql/Lexer.antt =====
-- internal/sqlparser/lexer.go: from the source text to tokens.
use eleone_sql.Common.{
  ℕ, zero, suc, Bool, true, false, ◌&&◌, ◌||◌, [], ◌∷◌, ◌==◌, if◌then◌else◌, length, drop, Option,
  none, some, Result, ok, err,
}
use eleone_sql.Bytes.{Bytes}
use eleone_sql.Sql.{
  Keyword, all_keywords, find_keyword, Punct, comma, lparen, rparen, semicolon, dot, eq, eq_eq, ne,
  bang_eq, bang, lt, le, gt, ge, plus, minus, star, slash, percent, Token, ident, number,
  string_text, keyword, punct, Tokens,
}

-- What the lexer takes from Go's packages unicode and strings.
pub record Unicode : Type 0 where
  pub is_space : ℕ → Bool
  pub is_digit : ℕ → Bool
  pub is_letter : ℕ → Bool
  pub to_upper : Bytes → Bytes

-- `out_of_fuel` has no counterpart in the program.
pub data LexError : Type 0 where
  unterminated_string out_of_fuel : LexError
  unexpected_character : ℕ → LexError

-- What one round of `next` comes to: the end of the text, a comment behind which it goes on, a token
-- with the text that is left, or an error.
pub data Lexed : Type 0 where
  at_end : Lexed
  again : Bytes → Lexed
  found : Token → Bytes → Lexed
  failed : LexError → Lexed

-- The front of the text whose characters pass, and the rest.
unfoldable pub scan_while : (ℕ → Bool) → Bytes → Bytes × Bytes
scan_while p [] = ([], [])
scan_while p (c ∷ s) = elim (p c) [
  | true ↦ (let (front, rest) = scan_while p s in (c ∷ front, rest))
  | false ↦ ([], c ∷ s)
]

-- The loop over a string literal, behind its opening quote: the text, each doubled quote as one, and
-- what is behind the closing quote.
unfoldable pub scan_string : Bytes → Option (Bytes × Bytes)
scan_string [] = none
scan_string (c ∷ []) = if c == b'\'' then some ([], []) else none
scan_string (c ∷ (d ∷ s)) = elim (c == b'\'') [
  | true ↦ elim (d == b'\'') [
    | true ↦ elim (scan_string s) [ none ↦ none | some (text, rest) ↦ some (b'\'' ∷ text, rest) ]
    | false ↦ some ([], d ∷ s)
  ]
  | false ↦ elim (scan_string (d ∷ s)) [ none ↦ none | some (text, rest) ↦ some (c ∷ text, rest) ]
]

unfoldable pub is_operator : ℕ → Bool
is_operator c = c == b'<' || c == b'>' || c == b'!' || c == b'='

-- An operator of one character, and the same with '=' behind it.
unfoldable pub short_operator : ℕ → Punct
short_operator c =
    if c == b'<' then lt else if c == b'>' then gt else if c == b'!' then bang else eq

unfoldable pub long_operator : ℕ → Punct
long_operator c =
    if c == b'<' then le else if c == b'>' then ge else if c == b'!' then bang_eq else eq_eq

unfoldable pub scan_operator : ℕ → Bytes → Punct × Bytes
unfolding short_operator long_operator
scan_operator c [] = (short_operator c, [])
scan_operator c (d ∷ s) =
    if d == b'='
    then (long_operator c, s)
    else if c == b'<' && d == b'>'
    then (ne, s)
    else (short_operator c, d ∷ s)

-- The characters ",()=.;+-*/%", less '=', which the case above takes.
unfoldable pub punct_of : ℕ → Option Punct
punct_of c =
    if c == b','
    then some comma
    else if c == b'('
    then some lparen
    else if c == b')'
    then some rparen
    else if c == b'.'
    then some dot
    else if c == b';'
    then some semicolon
    else if c == b'+'
    then some plus
    else if c == b'-'
    then some minus
    else if c == b'*'
    then some star
    else if c == b'/'
    then some slash
    else if c == b'%'
    then some percent
    else none

unfoldable pub starts_comment : ℕ → Bytes → Bool
starts_comment c [] = false
starts_comment c (d ∷ s) = c == b'-' && d == b'-'

abbrev pub punct_or_fail : ℕ → Bytes → Option Punct → Lexed
punct_or_fail c s none = failed (unexpected_character c)
punct_or_fail c s (some p) = found (punct p) s

abbrev pub string_or_fail : Option (Bytes × Bytes) → Lexed
string_or_fail none = failed unterminated_string
string_or_fail (some (text, rest)) = found (string_text text) rest

abbrev pub keyword_or_ident : Bytes → Option Keyword → Token
keyword_or_ident text none = ident text
keyword_or_ident text (some k) = keyword k

module _ (U : Unicode) where
  unfoldable pub is_number_part : ℕ → Bool
  is_number_part c = U.is_digit c || c == b'.'

  unfoldable pub is_word_part : ℕ → Bool
  is_word_part c = U.is_letter c || U.is_digit c || c == b'_'

  -- A number, an identifier or a keyword from the front of the text.
  unfoldable pub scan_number : Bytes → Lexed
  unfolding scan_while is_number_part
  scan_number s = let (text, rest) = scan_while is_number_part s in found (number text) rest

  unfoldable pub scan_word : Bytes → Lexed
  unfolding scan_while is_word_part
  scan_word s =
      let (text, rest) = scan_while is_word_part s in
      found (keyword_or_ident text (find_keyword (U.to_upper text) all_keywords)) rest

  -- An identifier behind its double quote. Where no second one comes, the text ends it.
  unfoldable pub scan_quoted : Bytes → Lexed
  unfolding scan_while
  scan_quoted s =
      let (text, rest) = scan_while (λ c. if c == b'"' then false else true) s in
      found (ident text) (drop 1 rest)

  -- The switch of `next`.
  unfoldable pub scan_token : ℕ → Bytes → Lexed
  unfolding scan_string scan_number scan_word scan_quoted is_operator scan_operator punct_of
  scan_token c s =
      if c == b'\''
      then string_or_fail (scan_string s)
      else if U.is_digit c
      then scan_number (c ∷ s)
      else if U.is_letter c || c == b'_'
      then scan_word (c ∷ s)
      else if c == b'"'
      then scan_quoted s
      else if is_operator c
      then (let (p, rest) = scan_operator c s in found (punct p) rest)
      else punct_or_fail c s (punct_of c)

  -- `next` at the first character that is no space.
  unfoldable pub next_token : Bytes → Lexed
  unfolding scan_while starts_comment scan_token
  next_token [] = at_end
  next_token (c ∷ s) =
      if starts_comment c s
      then again (scan_while (λ d. if d == b'\n' then false else true) s).1
      else scan_token c s

  unfoldable pub skip_space : Bytes → Bytes
  unfolding scan_while
  skip_space s = (scan_while U.is_space s).1

  -- The loop of `Tokenize`, on fuel.
  unfoldable pub tokens_of : ℕ → Bytes → Result LexError Tokens
  unfolding next_token skip_space
  tokens_of zero s = err out_of_fuel
  tokens_of (suc fuel) s = elim (next_token (skip_space s)) [
    | at_end ↦ ok []
    | again rest ↦ tokens_of fuel rest
    | found t rest ↦ elim (tokens_of fuel rest) [ err e ↦ err e | ok ts ↦ ok (t ∷ ts) ]
    | failed e ↦ err e
  ]

  unfoldable pub tokenize : Bytes → Result LexError Tokens
  unfolding tokens_of
  tokenize s = tokens_of (suc (length s)) s
