-- ===== src/Encoding/Floats.antt =====
-- EncodeFloat64 and DecodeFloat64: for which values the encoding is read back and keeps the order.
use eleone_sql.Common.{
  ℕ, ◌+◌, ◌%◌, ◌^◌, ◌<◌, ◌≡◌, ◌≢◌, ◌↔◌, ap₂, ◌∙◌, arith, ◌++◌, compare, Ordering, true, false,
  if◌then◌else◌,
}
use eleone_sql.Bytes.{Bytes, put_be, bytes_compare}
use eleone_sql.Bytes.BigEndian.{get_be-put_be, bytes_compare-put_be}
use eleone_sql.Encoding.{
  IsU64, magnitude, is_nan, is_negative, float_lt, float_ge, encode_float64, decode_float64,
  complement,
}
use eleone_sql.Encoding.Words.{flip_sign, sign_mask}

-- The word that EncodeFloat64 writes, and the one that DecodeFloat64 makes of a word.
encoded : ℕ → ℕ
encoded v = if float_ge v 0 then (v + 2 ^ 63) % 2 ^ 64 else complement v

decoded : ℕ → ℕ
decoded w = if is_negative w then (w + 2 ^ 63) % 2 ^ 64 else complement w

encode_float64-encoded : (v : ℕ) → IsU64 v → encode_float64 v ≡ put_be 8 (encoded v)
unfolding encode_float64 encoded
encode_float64-encoded v h = rw (flip_sign v h)

encoded-lt : (v : ℕ) → IsU64 v → encoded v < 2 ^ 64
unfolding encoded
encoded-lt v h = ground arith

decode_float64-decoded :
    (w : ℕ) (rest : Bytes) → IsU64 w → decode_float64 (put_be 8 w ++ rest) ≡ decoded w
unfolding decode_float64 decoded is_negative
decode_float64-decoded w rest h =
    rw (get_be-put_be 8 w rest h, sign_mask w h, flip_sign w h) (ground arith)

abbrev pub negative_zero : ℕ
negative_zero = 2 ^ 63

-- A NaN whose sign bit is clear, such as Go's `math.NaN()`.
abbrev pub IsPositiveNan : ℕ → Type 0
IsPositiveNan x = (is_nan x ≡ true) × (is_negative x ≡ false)

decoded-encoded_iff :
    (x : ℕ) → IsU64 x → (decoded (encoded x) ≡ x) ↔ ((x ≢ negative_zero) × (¬ IsPositiveNan x))
unfolding decoded encoded float_ge is_nan is_negative float_lt magnitude
decoded-encoded_iff x h = (λ e. (ground arith, ground arith), λ p. ground arith)

-- DecodeFloat64 reads back what EncodeFloat64 wrote exactly for the values that are neither -0 nor
-- a NaN with a clear sign bit.
pub decode-encode_float64_iff :
    (x : ℕ) (rest : Bytes)
    → IsU64 x
    → (decode_float64 (encode_float64 x ++ rest) ≡ x) ↔ ((x ≢ negative_zero) × (¬ IsPositiveNan x))
decode-encode_float64_iff x rest h =
    rw (encode_float64-encoded x h, decode_float64-decoded (encoded x) rest (encoded-lt x h))
      (decoded-encoded_iff x h)

-- The order of two floats that are no NaN.
abbrev pub float_order : ℕ → ℕ → Ordering
float_order a b =
    if float_lt a b then Ordering.lt else if float_lt b a then Ordering.gt else Ordering.eq

abbrev pub IsOrdinary : ℕ → Type 0
IsOrdinary x = (x < 2 ^ 64) × (is_nan x ≡ false) × (x ≢ negative_zero)

encoded_order :
    (a b : ℕ) → IsOrdinary a → IsOrdinary b → compare (encoded a) (encoded b) ≡ float_order a b
unfolding encoded float_ge is_negative magnitude
encoded_order a b ha hb = ground arith

-- On values that are neither a NaN nor -0 the encodings compare as bytes as the floats do.
pub compare-encode_float64 :
    (a b : ℕ)
    → IsOrdinary a
    → IsOrdinary b
    → bytes_compare (encode_float64 a) (encode_float64 b) ≡ float_order a b
compare-encode_float64 a b ha hb =
    ap₂ bytes_compare (encode_float64-encoded a ha.0) (encode_float64-encoded b hb.0)
    ∙ bytes_compare-put_be 8 (encoded a) (encoded b) (encoded-lt a ha.0) (encoded-lt b hb.0)
    ∙ encoded_order a b ha hb

encoded_below :
    (x : ℕ)
    → x < 2 ^ 64
    → float_lt x 0 ≡ true
    → compare (encoded negative_zero) (encoded x) ≡ Ordering.lt
unfolding encoded float_ge
encoded_below x h lt = ground arith

-- The encoding of -0 sorts before that of every negative number, although -0 is greater than each.
pub negative_zero_sorts_first :
    (x : ℕ)
    → IsU64 x
    → float_lt x 0 ≡ true
    → (bytes_compare (encode_float64 negative_zero) (encode_float64 x) ≡ Ordering.lt)
      × (float_lt x negative_zero ≡ true)
unfolding float_lt
negative_zero_sorts_first x h lt = (
  ap₂ bytes_compare (encode_float64-encoded negative_zero (omega arith))
        (encode_float64-encoded x h)
      ∙ bytes_compare-put_be 8 (encoded negative_zero) (encoded x)
          (encoded-lt negative_zero (omega arith)) (encoded-lt x h)
      ∙ encoded_below x h lt,
  ground arith,
)
