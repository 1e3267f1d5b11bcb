-- ===== src/Sql/Fuel/Text.antt =====
-- internal/sqlparser/lexer.go: each round of the lexer reads some of the text, so the fuel lasts.
use eleone_sql.Common.{
  ℕ, zero, suc, ◌<◌, ◌≤◌, ◌≡◌, ◌≢◌, refl, arith, Bool, true, false, [], ◌∷◌, length, drop, Option,
  none, some, Result, ok, err, Bool-cases, inl, inr, ◌==◌, ◌||◌, if◌then◌else◌,
}
use eleone_sql.Bytes.{Bytes}
use eleone_sql.Sql.{Punct, Token, Tokens}
use eleone_sql.Sql.Lexer.{
  Unicode, LexError, out_of_fuel, Lexed, at_end, again, found, failed, scan_while, scan_string,
  scan_operator, punct_of, is_operator, starts_comment, punct_or_fail, string_or_fail,
  is_number_part, is_word_part, scan_number, scan_word, scan_quoted, scan_token, next_token,
  skip_space, tokens_of, tokenize,
}

-- A round that leaves fewer than `n` characters, or that ends the work, not for want of fuel.
data Round (n : ℕ) : Lexed → Type 0 where
  ends : Round n at_end
  goes_on : {rest : Bytes} → length rest < n → Round n (again rest)
  finds : {t : Token} {rest : Bytes} → length rest < n → Round n (found t rest)
  fails : {e : LexError} → e ≢ out_of_fuel → Round n (failed e)

length-scan_while : (p : ℕ → Bool) (s : Bytes) → length (scan_while p s).1 ≤ length s
unfolding scan_while
length-scan_while p [] = omega arith
length-scan_while p (c ∷ s) = elim (Bool-cases (p c)) [
  | inl h ↦ rw (h, scan_while) (omega (arith, length-scan_while p s))
  | inr h ↦ rw (h, scan_while) (omega arith)
]

-- A scan that passes its first character reads it.
scan_while-front :
    (p : ℕ → Bool) (c : ℕ) (s : Bytes) → p c ≡ true → length (scan_while p (c ∷ s)).1 ≤ length s
unfolding scan_while
scan_while-front p c s h = rw (h, scan_while) (length-scan_while p s)

-- A string literal that leaves at most `n` characters, or has no end.
data Scanned (n : ℕ) : Option (Bytes × Bytes) → Type 0 where
  unterminated : Scanned n none
  closed : {text rest : Bytes} → length rest ≤ n → Scanned n (some (text, rest))

Scanned-behind :
    {n m : ℕ} (c : ℕ) {o : Option (Bytes × Bytes)}
    → Scanned n o
    → n ≤ m
    → Scanned m (elim o [ none ↦ none | some (text, rest) ↦ some (c ∷ text, rest) ])
Scanned-behind c unterminated le = unterminated
Scanned-behind c (closed h) le = closed (omega arith)

scan_string-Scanned : (s : Bytes) → Scanned (length s) (scan_string s)
unfolding scan_string
scan_string-Scanned [] = unterminated
scan_string-Scanned (c ∷ []) = elim (Bool-cases (c == b'\'')) [
  | inl h ↦ rw (h, scan_string) (closed (omega arith))
  | inr h ↦ rw (h, scan_string) unterminated
]
scan_string-Scanned (c ∷ (d ∷ s)) = elim (Bool-cases (c == b'\'')) [
  | inr h ↦ rw (h, scan_string) (Scanned-behind c (scan_string-Scanned (d ∷ s)) (omega arith))
  | inl h ↦ elim (Bool-cases (d == b'\'')) [
    | inl h' ↦ rw (h, h', scan_string) (Scanned-behind b'\'' (scan_string-Scanned s) (omega arith))
    | inr h' ↦ rw (h, h', scan_string) (closed (omega arith))
  ]
]

length-scan_operator : (c : ℕ) (s : Bytes) → length (scan_operator c s).1 ≤ length s
unfolding scan_operator
length-scan_operator c [] = omega arith
length-scan_operator c (d ∷ s) = ground arith

punct-Round : (c : ℕ) (s : Bytes) (o : Option Punct) → Round (suc (length s)) (punct_or_fail c s o)
punct-Round c s none = fails (λ e. cc)
punct-Round c s (some p) = finds (omega arith)

string-Round : {n : ℕ} {o : Option (Bytes × Bytes)} → Scanned n o → Round (suc n) (string_or_fail o)
string-Round unterminated = fails (λ e. cc)
string-Round (closed h) = finds (omega arith)

Round-if :
    {n : ℕ} {x y : Lexed} (b : Bool)
    → (b ≡ true → Round n x)
    → (b ≡ false → Round n y)
    → Round n (if b then x else y)
Round-if true f g = f refl
Round-if false f g = g refl

length-drop_one : (s : Bytes) → length (drop 1 s) ≤ length s
length-drop_one [] = omega arith
length-drop_one (c ∷ s) = omega arith

module _ (U : Unicode) where
  digit_starts : (c : ℕ) → U.is_digit c ≡ true → is_number_part U c ≡ true
  unfolding is_number_part
  digit_starts c h = rw h refl

  letter_starts : (c : ℕ) → (U.is_letter c || c == b'_') ≡ true → is_word_part U c ≡ true
  unfolding is_word_part
  letter_starts c h = ground arith

  scan_token-Round : (c : ℕ) (s : Bytes) → Round (suc (length s)) (scan_token U c s)
  unfolding scan_token scan_number scan_word scan_quoted
  scan_token-Round c s =
      Round-if (c == b'\'') (λ h. string-Round (scan_string-Scanned s))
        λ h1.
          Round-if (U.is_digit c)
            (λ h. finds (omega (arith, scan_while-front (is_number_part U) c s (digit_starts c h))))
            λ h2.
              Round-if (U.is_letter c || c == b'_')
                (λ h.
                  finds (omega (arith, scan_while-front (is_word_part U) c s (letter_starts c h))))
                λ h3.
                  Round-if (c == b'"')
                    (λ h. finds (
                      omega (
                        arith,
                        length-drop_one (scan_while (λ d. if d == b'"' then false else true) s).1,
                        length-scan_while (λ d. if d == b'"' then false else true) s,
                      )))
                    λ h4.
                      Round-if (is_operator c)
                        (λ h. finds (omega (arith, length-scan_operator c s)))
                        λ h5. punct-Round c s (punct_of c)

  next_token-Round : (s : Bytes) → Round (length s) (next_token U s)
  unfolding next_token
  next_token-Round [] = ends
  next_token-Round (c ∷ s) =
      Round-if (starts_comment c s)
        (λ h.
          goes_on (omega (arith, length-scan_while (λ d. if d == b'\n' then false else true) s)))
        λ h. scan_token-Round c s

  length-skip_space : (s : Bytes) → length (skip_space U s) ≤ length s
  unfolding skip_space
  length-skip_space s = length-scan_while U.is_space s

  -- The tokens behind the first one.
  behind_token :
      (t : Token) (r : Result LexError Tokens)
      → r ≢ err out_of_fuel
      → (elim r [ err e ↦ err e | ok ts ↦ ok (t ∷ ts) ]) ≢ err out_of_fuel
  behind_token t (err e) h eq = h eq
  behind_token t (ok ts) h eq = cc

  tokens_of-step :
      (fuel n : ℕ) (r : Lexed)
      → Round n r
      → ((rest : Bytes) → length rest < n → tokens_of U fuel rest ≢ err out_of_fuel)
      → (elim r [
        | at_end ↦ ok []
        | again rest ↦ tokens_of U fuel rest
        | found t rest ↦ elim (tokens_of U fuel rest) [ err e ↦ err e | ok ts ↦ ok (t ∷ ts) ]
        | failed e ↦ err e
      ])
        ≢ err out_of_fuel
  tokens_of-step fuel n _ ends ih e = cc
  tokens_of-step fuel n _ (goes_on {rest} h) ih e = ih rest h e
  tokens_of-step fuel n _ (finds {t} {rest} h) ih e = behind_token t _ (ih rest h) e
  tokens_of-step fuel n _ (fails h) ih e = h (cc)

  tokens_of-fuel : (fuel : ℕ) (s : Bytes) → length s < fuel → tokens_of U fuel s ≢ err out_of_fuel
  unfolding tokens_of
  tokens_of-fuel zero s lt = absurd (omega arith)
  tokens_of-fuel (suc fuel) s lt =
      tokens_of-step fuel _ (next_token U (skip_space U s)) (next_token-Round (skip_space U s))
        λ rest lr. tokens_of-fuel fuel rest (omega (arith, length-skip_space s))

  pub tokenize-fuel : (s : Bytes) → tokenize U s ≢ err out_of_fuel
  unfolding tokenize
  tokenize-fuel s = tokens_of-fuel (suc (length s)) s (omega arith)
