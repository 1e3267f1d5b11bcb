-- ===== src/Sql/Fuel.antt =====
-- internal/sqlparser/parser.go: how much of the input a parser leaves, and that its fuel lasts.
pub mod Expressions
pub mod Text
pub mod Schema
pub mod Queries
pub mod Statements
use eleone_sql.Common.{
  ℕ, zero, suc, ◌<◌, ◌≤◌, ◌≡◌, ◌≢◌, refl, arith, true, false, List, [], ◌∷◌, length, Result, ok,
  err, Bool-cases, inl, inr,
}
use eleone_sql.Bytes.{Bytes}
use eleone_sql.Sql.{
  Keyword, Punct, comma, Token, ident, number, string_text, keyword, punct, Tokens,
}
use eleone_sql.Sql.Parser.{
  ParseError, expected_keyword, expected_punct, expected_ident, out_of_fuel, Parser, pure, onward,
  ◌>>=◌, is_keyword, is_punct, advance, expect_keyword, expect_punct, expect_ident, skip_punct,
}
use eleone_sql.Sql.Schema.{comma_list}

-- The parser leaves fewer than `n` tokens, or it fails with an error of the program.
pub data Leaves {ℓ} {A : Type ℓ} (n : ℕ) : Result ParseError (A × Tokens) → Type ℓ where
  consumed : {a : A} {rest : Tokens} → length rest < n → Leaves n (ok (a, rest))
  rejected : {e : ParseError} → e ≢ out_of_fuel → Leaves n (err e)

module _ {ℓ} {A : Type ℓ} where
  -- On an input of fewer than `b` tokens: some token is read, and: none may be.
  abbrev pub Reads : ℕ → Parser A → Type ℓ
  Reads b p = (ts : Tokens) → length ts < b → Leaves (length ts) (p ts)

  abbrev pub Keeps : ℕ → Parser A → Type ℓ
  Keeps b p = (ts : Tokens) → length ts < b → Leaves (suc (length ts)) (p ts)

  pub Leaves-le : {n m : ℕ} {r : Result ParseError (A × Tokens)} → Leaves n r → n ≤ m → Leaves m r
  Leaves-le (consumed h) le = consumed (omega arith)
  Leaves-le (rejected h) le = rejected h

  pub Reads→Keeps : (b : ℕ) (p : Parser A) → Reads b p → Keeps b p
  Reads→Keeps b p h ts lt = Leaves-le (h ts lt) (omega arith)

  pub pure-Keeps : (b : ℕ) (a : A) → Keeps b (pure a)
  pure-Keeps b a ts lt = consumed (omega arith)

  pub Leaves-out_of_fuel :
      {n : ℕ} {r : Result ParseError (A × Tokens)} → Leaves n r → r ≢ err out_of_fuel
  Leaves-out_of_fuel (consumed h) e = cc
  Leaves-out_of_fuel (rejected h) e = h (cc)

module _ {ℓ κ} {A : Type ℓ} {B : Type κ} where
  pub Leaves-onward :
      {n m : ℕ} {r : Result ParseError (A × Tokens)} {f : A → Parser B}
      → Leaves n r
      → ((a : A) (rest : Tokens) → length rest < n → Leaves m (f a rest))
      → Leaves m (onward r f)
  Leaves-onward (consumed {a} {rest} h) k = k a rest h
  Leaves-onward (rejected h) k = rejected h

  pub Reads-then :
      (b : ℕ) {p : Parser A} {f : A → Parser B}
      → Reads b p
      → ((a : A) → Keeps b (f a))
      → Reads b (p >>= f)
  Reads-then b hp hf ts lt =
      Leaves-onward (hp ts lt) λ a rest le. Leaves-le (hf a rest (omega arith)) (omega arith)

  pub Keeps-then :
      (b : ℕ) {p : Parser A} {f : A → Parser B}
      → Keeps b p
      → ((a : A) → Keeps b (f a))
      → Keeps b (p >>= f)
  Keeps-then b hp hf ts lt =
      Leaves-onward (hp ts lt) λ a rest le. Leaves-le (hf a rest (omega arith)) (omega arith)

pub advance_punct :
    (p : Punct) (ts : Tokens) → is_punct p ts ≡ true → length (advance ts) < length ts
unfolding is_punct
advance_punct p [] h = cc
advance_punct p (t ∷ ts) h = omega arith

pub advance_keyword :
    (k : Keyword) (ts : Tokens) → is_keyword k ts ≡ true → length (advance ts) < length ts
unfolding is_keyword
advance_keyword k [] h = cc
advance_keyword k (t ∷ ts) h = omega arith

pub expect_keyword-Reads : (b : ℕ) (k : Keyword) → Reads b (expect_keyword k)
unfolding expect_keyword
expect_keyword-Reads b k ts lt = elim (Bool-cases (is_keyword k ts)) [
  | inl h ↦ rw (h, expect_keyword) (consumed (advance_keyword k ts h))
  | inr h ↦ rw (h, expect_keyword) (rejected (λ e. cc))
]

pub expect_punct-Reads : (b : ℕ) (p : Punct) → Reads b (expect_punct p)
unfolding expect_punct
expect_punct-Reads b p ts lt = elim (Bool-cases (is_punct p ts)) [
  | inl h ↦ rw (h, expect_punct) (consumed (advance_punct p ts h))
  | inr h ↦ rw (h, expect_punct) (rejected (λ e. cc))
]

pub expect_ident-Reads : (b : ℕ) → Reads b expect_ident
unfolding expect_ident
expect_ident-Reads b [] lt = rejected (λ e. cc)
expect_ident-Reads b (ident s ∷ ts) lt = consumed (omega arith)
expect_ident-Reads b (number s ∷ ts) lt = rejected (λ e. cc)
expect_ident-Reads b (string_text s ∷ ts) lt = rejected (λ e. cc)
expect_ident-Reads b (keyword k ∷ ts) lt = rejected (λ e. cc)
expect_ident-Reads b (punct p ∷ ts) lt = rejected (λ e. cc)

pub length-skip_punct : (p : Punct) (ts : Tokens) → length (skip_punct p ts) ≤ length ts
unfolding skip_punct
length-skip_punct p ts = elim (Bool-cases (is_punct p ts)) [
  | inl h ↦ rw (h, skip_punct) (omega (arith, advance_punct p ts h))
  | inr h ↦ rw (h, skip_punct) (omega arith)
]

-- A list with commas, whose items are shorter than its fuel.
pub comma_list-Keeps {ℓ} :
    {A : Type ℓ} (b : ℕ) (p : Parser A) (fuel : ℕ)
    → Keeps b p
    → (ts : Tokens) → length ts < b
    → length ts < fuel
    → Leaves (suc (length ts)) (comma_list p fuel ts)
unfolding comma_list
comma_list-Keeps b p zero hp ts lt lf = absurd (omega arith)
comma_list-Keeps b p (suc fuel) hp ts lt lf = Leaves-onward (hp ts lt) λ x rest le.
    elim (Bool-cases (is_punct comma rest)) [
      | inr h ↦ rw h (consumed le)
      | inl h ↦ rw h (
          Leaves-onward
            (comma_list-Keeps b p fuel hp (advance rest) (omega (arith, advance_punct comma rest h))
              (omega (arith, advance_punct comma rest h)))
            λ xs rest' le'. consumed (omega (arith, advance_punct comma rest h)))
    ]
