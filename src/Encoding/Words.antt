-- ===== src/Encoding/Words.antt =====
-- The top bit of a word, set, cleared and tested, as arithmetic. The laws go digit by digit.
use Prim.Native.Nat.{min, digits, differ, bit_and, bit_xor, bit_and-bitwise, bit_xor-bitwise}
use eleone_sql.Common.{
  ℕ, zero, suc, ◌+◌, ◌-◌, ◌*◌, ◌/◌, ◌%◌, ◌^◌, ◌≤◌, ◌<◌, ◌≡◌, refl, ap, sym, ◌∙◌, arith,
}
use mathlib.Core.Path.{ap₂}
use native.Mathlib.Nat.{pow-suc}
use native.Mathlib.Decide.{dec_lt}

-- The bitwise operations count digits; any count that is not below the first operand does.
module _ (alone : ℕ → ℕ) (both : ℕ → ℕ → ℕ) where
  counts_agree : (i j x y : ℕ) → x ≤ i → x ≤ j → digits alone both i x y ≡ digits alone both j x y
  counts_agree zero zero x y hi hj = refl
  counts_agree (suc i) (suc j) zero y hi hj = refl
  counts_agree (suc i) (suc j) (suc x) y hi hj =
      ap (λ q. q * 2 + both (suc x % 2) (y % 2))
        (counts_agree i j (suc x / 2) (y / 2) (omega arith) (omega arith))
  counts_agree zero (suc j) zero y hi hj = refl
  counts_agree (suc i) zero zero y hi hj = refl
  counts_agree zero (suc j) (suc x) y hi hj = absurd (omega arith)
  counts_agree (suc i) zero (suc x) y hi hj = absurd (omega arith)

  -- All digits of `x`.
  whole : ℕ → ℕ → ℕ
  whole x y = digits alone both x x y

  whole_step : (x y : ℕ) → 0 < x → whole x y ≡ whole (x / 2) (y / 2) * 2 + both (x % 2) (y % 2)
  unfolding whole
  whole_step zero y h = absurd (omega arith)
  whole_step (suc x) y h =
      ap (λ q. q * 2 + both (suc x % 2) (y % 2))
        (counts_agree x (suc x / 2) (suc x / 2) (y / 2) (omega arith) (omega arith))

bit_xor_step : (x y : ℕ) → bit_xor x y ≡ bit_xor (x / 2) (y / 2) * 2 + differ (x % 2) (y % 2)
unfolding whole
bit_xor_step x y = elim (dec_lt 0 x) [
  | yes h ↦
      bit_xor-bitwise x y
      ∙ whole_step (λ c. c) differ x y h
      ∙ ap (λ q. q * 2 + differ (x % 2) (y % 2)) (sym (bit_xor-bitwise (x / 2) (y / 2)))
  | no h ↦ xor_of_zero x y (omega arith)
]
  where
    xor_of_zero :
        (x y : ℕ) → x ≡ 0 → bit_xor x y ≡ bit_xor (x / 2) (y / 2) * 2 + differ (x % 2) (y % 2)
    xor_of_zero zero y h = omega (arith, bit_xor-bitwise 0 y, bit_xor-bitwise 0 (y / 2))
    xor_of_zero (suc x) y h = absurd (omega arith)

differ-zero : (a : ℕ) → differ a 0 ≡ a
differ-zero zero = refl
differ-zero (suc a) = refl

bit_xor-double : (a c : ℕ) → bit_xor a (c * 2) ≡ bit_xor (a / 2) c * 2 + a % 2
bit_xor-double a c =
    bit_xor_step a (c * 2)
    ∙ ap₂ (λ x y. bit_xor (a / 2) x * 2 + differ (a % 2) y) (omega arith) (omega arith)
    ∙ ap (λ x. bit_xor (a / 2) c * 2 + x) (differ-zero (a % 2))

-- A word without its top bit gets it.
set_top : (k u : ℕ) → u < 2 ^ k → bit_xor u (2 ^ k) ≡ u + 2 ^ k
set_top zero zero h = refl
set_top zero (suc u) h = absurd (omega arith)
set_top (suc k) u h = rw (pow-suc 2 k) (
    omega (
      arith,
      bit_xor-double u (2 ^ k),
      pow-suc 2 k,
      set_top k (u / 2) (omega (arith, pow-suc 2 k)),
    ))

half_sum : (u p : ℕ) → (u + p * 2) / 2 ≡ u / 2 + p
half_sum u p = omega arith

-- A word with its top bit loses it.
clear_top : (k u : ℕ) → u < 2 ^ k → bit_xor (u + 2 ^ k) (2 ^ k) ≡ u
clear_top zero zero h = refl
clear_top zero (suc u) h = absurd (omega arith)
clear_top (suc k) u h = rw (pow-suc 2 k) (
    bit_xor-double (u + 2 ^ k * 2) (2 ^ k)
    ∙ ap (λ x. bit_xor x (2 ^ k) * 2 + (u + 2 ^ k * 2) % 2) (half_sum u (2 ^ k))
    ∙ omega (arith, pow-suc 2 k, clear_top k (u / 2) (omega (arith, pow-suc 2 k))))

-- `x ^ (1 << 63)` adds 2 ^ 63, modulo 2 ^ 64.
pub flip_sign : (x : ℕ) → x < 2 ^ 64 → bit_xor x (2 ^ 63) ≡ (x + 2 ^ 63) % 2 ^ 64
flip_sign x h = elim (dec_lt x (2 ^ 63)) [
  | yes p ↦ set_top 63 x p ∙ omega arith
  | no p ↦
      ap (λ y. bit_xor y (2 ^ 63)) (omega arith)
      ∙ clear_top 63 (x - 2 ^ 63) (omega arith)
      ∙ omega arith
]

bit_and_step : (x y : ℕ) → bit_and x y ≡ bit_and (x / 2) (y / 2) * 2 + min (x % 2) (y % 2)
unfolding whole
bit_and_step x y = elim (dec_lt 0 x) [
  | yes h ↦
      bit_and-bitwise x y
      ∙ whole_step (λ c. zero) min x y h
      ∙ ap (λ q. q * 2 + min (x % 2) (y % 2)) (sym (bit_and-bitwise (x / 2) (y / 2)))
  | no h ↦ and_of_zero x y (omega arith)
]
  where
    and_of_zero :
        (x y : ℕ) → x ≡ 0 → bit_and x y ≡ bit_and (x / 2) (y / 2) * 2 + min (x % 2) (y % 2)
    and_of_zero zero y h = omega (arith, bit_and-bitwise 0 y, bit_and-bitwise 0 (y / 2))
    and_of_zero (suc x) y h = absurd (omega arith)

double_half : (c : ℕ) → c * 2 / 2 ≡ c
double_half c = omega arith

double_rest : (c : ℕ) → c * 2 % 2 ≡ 0
double_rest c = omega arith

bit_and-double : (a c : ℕ) → bit_and a (c * 2) ≡ bit_and (a / 2) c * 2
bit_and-double a c =
    bit_and_step a (c * 2)
    ∙ ap₂ (λ x y. bit_and (a / 2) x * 2 + min (a % 2) y) (double_half c) (double_rest c)
    ∙ omega arith

mask_off : (k u : ℕ) → u < 2 ^ k → bit_and u (2 ^ k) ≡ 0
mask_off zero zero h = refl
mask_off zero (suc u) h = absurd (omega arith)
mask_off (suc k) u h =
    rw (pow-suc 2 k)
      (omega (arith, bit_and-double u (2 ^ k), mask_off k (u / 2) (omega (arith, pow-suc 2 k))))

mask_on : (k u : ℕ) → u < 2 ^ k → bit_and (u + 2 ^ k) (2 ^ k) ≡ 2 ^ k
mask_on zero zero h = refl
mask_on zero (suc u) h = absurd (omega arith)
mask_on (suc k) u h = rw (pow-suc 2 k) (
    bit_and-double (u + 2 ^ k * 2) (2 ^ k)
    ∙ ap (λ x. bit_and x (2 ^ k) * 2) (half_sum u (2 ^ k))
    ∙ ap (λ x. x * 2) (mask_on k (u / 2) (omega (arith, pow-suc 2 k))))

-- `x & (1 << 63)` keeps the top bit alone.
pub sign_mask : (x : ℕ) → x < 2 ^ 64 → bit_and x (2 ^ 63) ≡ x / 2 ^ 63 * 2 ^ 63
sign_mask x h = elim (dec_lt x (2 ^ 63)) [
  | yes p ↦ mask_off 63 x p ∙ omega arith
  | no p ↦
      ap (λ y. bit_and y (2 ^ 63)) (split x (omega arith))
      ∙ mask_on 63 (x - 2 ^ 63) (omega arith)
      ∙ omega arith
]
  where
    split : (x : ℕ) → 2 ^ 63 ≤ x → x ≡ x - 2 ^ 63 + 2 ^ 63
    split x h = omega arith
