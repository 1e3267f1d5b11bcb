-- ===== src/Sql/Printing/Strings.antt =====
-- internal/sqlparser/lexer.go: a string literal with its quotes doubled is read back.
use eleone_sql.Common.{
  sym, ℕ, ◌≤◌, ◌<◌, ◌≡◌, refl, ◌∙◌, ap, arith, false, [], ◌∷◌, ◌==◌, if◌then◌else◌, length, some,
  ok, Bool-cases, inl, inr,
}
use eleone_sql.Bytes.{Bytes}
use eleone_sql.Sql.{string_text}
use eleone_sql.Sql.Lexer.{
  Unicode, found, scan_string, string_or_fail, scan_token, starts_comment, next_token, skip_space,
  scan_while, tokens_of, tokenize,
}

-- The text with each quote doubled, in front of `rest`.
unfoldable pub escape : Bytes → Bytes → Bytes
escape [] rest = rest
escape (c ∷ s) rest =
    let behind = escape s rest in if c == b'\'' then b'\'' ∷ (b'\'' ∷ behind) else c ∷ behind

unfoldable pub quoted : Bytes → Bytes
unfolding escape
quoted s = b'\'' ∷ escape s (b'\'' ∷ [])

length-escape : (s rest : Bytes) → length rest ≤ length (escape s rest)
unfolding escape
length-escape [] rest = omega arith
length-escape (c ∷ s) rest = elim (Bool-cases (c == b'\'')) [
  | inl h ↦ rw (h, escape) (omega (arith, length-escape s rest))
  | inr h ↦ rw (h, escape) (omega (arith, length-escape s rest))
]

scan_string-other :
    (c : ℕ) (s text rest : Bytes)
    → (c == b'\'') ≡ false
    → 0 < length s
    → scan_string s ≡ some (text, rest)
    → scan_string (c ∷ s) ≡ some (c ∷ text, rest)
unfolding scan_string
scan_string-other c [] text rest other nonempty h = absurd (omega arith)
scan_string-other c (d ∷ s) text rest other nonempty h = rw (other, scan_string) (rw h refl)

scan_string-escape : (s : Bytes) → scan_string (escape s (b'\'' ∷ [])) ≡ some (s, [])
unfolding scan_string escape
scan_string-escape [] = refl
scan_string-escape (c ∷ s) = elim (Bool-cases (c == b'\'')) [
  | inl h ↦
      let same : c ≡ b'\'' = ground arith in
      rw (h, escape) (rw (scan_string-escape s) (ap (λ x. some (x ∷ s, [])) (sym same)))
  | inr h ↦
      rw (h, escape)
        (scan_string-other c (escape s (b'\'' ∷ [])) s [] h
          (omega (arith, length-escape s (b'\'' ∷ []))) (scan_string-escape s))
]

no_comment : (t : Bytes) → starts_comment b'\'' t ≡ false
unfolding starts_comment
no_comment [] = refl
no_comment (d ∷ t) = refl

module _ (U : Unicode) where
  skip_space-other : (c : ℕ) (t : Bytes) → U.is_space c ≡ false → skip_space U (c ∷ t) ≡ c ∷ t
  unfolding skip_space scan_while
  skip_space-other c t h = rw (h, skip_space, scan_while) refl

  next_token-quote : (t : Bytes) → next_token U (b'\'' ∷ t) ≡ string_or_fail (scan_string t)
  unfolding next_token scan_token
  next_token-quote t = rw (no_comment t, next_token) refl

  next_token-quoted :
      (s : Bytes)
      → U.is_space b'\'' ≡ false
      → next_token U (skip_space U (quoted s)) ≡ found (string_text s) []
  unfolding quoted
  next_token-quoted s h =
      ap (next_token U) (skip_space-other b'\'' (escape s (b'\'' ∷ [])) h)
      ∙ next_token-quote (escape s (b'\'' ∷ []))
      ∙ ap string_or_fail (scan_string-escape s)

  -- If the quote does not count as a space: Tokenize makes of a text between quotes whose own
  -- quotes are doubled, whatever else it holds, one string token with exactly that text.
  pub tokenize-quoted :
      (s : Bytes) → U.is_space b'\'' ≡ false → tokenize U (quoted s) ≡ ok (string_text s ∷ [])
  unfolding tokenize tokens_of quoted skip_space scan_while next_token
  tokenize-quoted s h = rw (next_token-quoted s h, tokens_of) refl
