-- ===== src/Sql/Printing/Numbers.antt =====
-- internal/sqlparser/parser.go: integer literals are read as they are written.
use eleone_sql.Common.{
  ℕ, zero, suc, ◌+◌, ◌*◌, ◌/◌, ◌%◌, ◌^◌, ◌<◌, ◌≡◌, refl, ◌∙◌, ap, [], ◌∷◌, ltb, ltb→lt, ltb→le,
  arith, length, ◌≤◌, lt→ltb, Option, some, Bool-cases, inl, inr,
}
use eleone_sql.Bytes.{Bytes}
use eleone_sql.Sql.Parser.{digits_value, parse_int, has_dot, number_literal}
use eleone_sql.Sql.Printing.{digits_onto, decimal}
use eleone_sql.Engine.Expr.{literal_expr, lit_int}

digits_value-digit :
    (acc d : ℕ) (s : Bytes)
    → d < 10
    → digits_value acc ((b'0' + d) ∷ s) ≡ digits_value (acc * 10 + d) s
unfolding digits_value
digits_value-digit acc d s h = ground arith

digits_value-onto :
    (fuel n : ℕ) (s : Bytes) → n < fuel → digits_value 0 (digits_onto fuel n s) ≡ digits_value n s
unfolding digits_onto
digits_value-onto zero n s h = absurd (omega arith)
digits_value-onto (suc fuel) n s h = elim (Bool-cases (ltb n 10)) [
  | inl e ↦
      rw (e, digits_onto)
        (digits_value-digit 0 n s (ltb→lt n 10 e) ∙ ap (λ m. digits_value m s) (omega arith))
  | inr e ↦
      let big = ltb→le n 10 e in
      rw (e, digits_onto)
        (digits_value-onto fuel (n / 10) _ (omega arith)
          ∙ digits_value-digit (n / 10) (n % 10) s (omega arith)
          ∙ ap (λ m. digits_value m s) (omega arith))
]

has_dot-digit : (d : ℕ) (s : Bytes) → has_dot ((b'0' + d) ∷ s) ≡ has_dot s
unfolding has_dot
has_dot-digit d s = ground arith

has_dot-onto : (fuel n : ℕ) (s : Bytes) → has_dot (digits_onto fuel n s) ≡ has_dot s
unfolding digits_onto has_dot
has_dot-onto zero n s = refl
has_dot-onto (suc fuel) n s = elim (Bool-cases (ltb n 10)) [
  | inl e ↦ rw (e, digits_onto) (has_dot-digit n s)
  | inr e ↦ rw (e, digits_onto) (has_dot-onto fuel (n / 10) _ ∙ has_dot-digit (n % 10) s)
]

length-onto : (fuel n : ℕ) (s : Bytes) → length s ≤ length (digits_onto fuel n s)
unfolding digits_onto
length-onto zero n s = omega arith
length-onto (suc fuel) n s = elim (Bool-cases (ltb n 10)) [
  | inl e ↦ rw (e, digits_onto) (omega arith)
  | inr e ↦ rw (e, digits_onto) (omega (arith, length-onto fuel (n / 10) ((b'0' + n % 10) ∷ s)))
]

length-decimal : (n : ℕ) → 0 < length (decimal n)
unfolding decimal digits_onto
length-decimal n = elim (Bool-cases (ltb n 10)) [
  | inl e ↦ rw (e, digits_onto) (omega arith)
  | inr e ↦ rw (e, digits_onto) (omega (arith, length-onto n (n / 10) ((b'0' + n % 10) ∷ [])))
]

parse_int-value :
    (t : Bytes) (n : ℕ)
    → 0 < length t
    → n < 2 ^ 63
    → digits_value 0 t ≡ some n
    → parse_int t ≡ some n
unfolding parse_int
parse_int-value [] n nonempty h e = absurd (omega arith)
parse_int-value (c ∷ s) n nonempty h e = rw (e, lt→ltb n (2 ^ 63) h, parse_int) refl

parse_int-decimal : (n : ℕ) → n < 2 ^ 63 → parse_int (decimal n) ≡ some n
unfolding decimal digits_value
parse_int-decimal n h =
    parse_int-value (decimal n) n (length-decimal n) h
      (digits_value-onto (suc n) n [] (omega arith))

pub number_literal-decimal :
    (parse_float : Bytes → Option ℕ) (n : ℕ)
    → n < 2 ^ 63
    → number_literal parse_float (decimal n) ≡ some (literal_expr (lit_int n))
unfolding number_literal decimal
number_literal-decimal parse_float n h = rw (has_dot-onto (suc n) n [], parse_int-decimal n h) refl
