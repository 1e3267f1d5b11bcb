-- ===== src/Encoding.antt =====
-- internal/util/encoding.go. An int64 and a uint64 are their 64-bit patterns, numbers below 2 ^ 64;
-- a float64 is the pattern that `math.Float64bits` gives, so that function and its inverse do not show.
pub mod Words
pub mod Integers
pub mod Floats
use Prim.Native.Nat.{bit_and, bit_xor}
use eleone_sql.Common.{
  ℕ, ◌+◌, ◌-◌, ◌%◌, ◌^◌, ◌<◌, Bool, false, not, ◌&&◌, ◌||◌, ltb, leb, ◌==◌, if◌then◌else◌,
}
use eleone_sql.Common.Int.{ℤ, pos, negsuc}
use eleone_sql.Bytes.{Bytes, put_be, get_be}

abbrev pub IsU64 : ℕ → Type 0
IsU64 v = v < 2 ^ 64

-- The integer that an int64 pattern stands for, in two's complement.
abbrev pub signed64 : ℕ → ℤ
signed64 w = if ltb w (2 ^ 63) then pos w else negsuc (2 ^ 64 - w - 1)

-- `1 << 63`.
abbrev pub sign_bit : ℕ
sign_bit = 2 ^ 63

-- `^bits` on a uint64.
abbrev pub complement : ℕ → ℕ
complement bits = 2 ^ 64 - 1 - bits

unfoldable pub encode_int64 : ℕ → Bytes
encode_int64 v = put_be 8 (bit_xor v sign_bit)

unfoldable pub decode_int64 : Bytes → ℕ
decode_int64 b = bit_xor (get_be 8 b) sign_bit

-- The order of float64 values, on their patterns: the sign bit and 63 bits of magnitude. A magnitude
-- above that of infinity is a NaN, which no comparison holds of; the two zeros are equal.
unfoldable pub magnitude : ℕ → ℕ
magnitude x = x % sign_bit

unfoldable pub is_nan : ℕ → Bool
unfolding magnitude
is_nan x = ltb 0x7ff0000000000000 (magnitude x)

unfoldable pub is_negative : ℕ → Bool
is_negative x = leb sign_bit x

-- `a < b`.
unfoldable pub float_lt : ℕ → ℕ → Bool
unfolding is_nan is_negative magnitude
float_lt a b =
    not (is_nan a)
    && not (is_nan b)
    && (if is_negative a
        then (if is_negative b
            then ltb (magnitude b) (magnitude a)
            else not (magnitude a == 0 && magnitude b == 0))
        else (if is_negative b then false else ltb (magnitude a) (magnitude b)))

-- `a == b`.
unfoldable pub float_eq : ℕ → ℕ → Bool
unfolding is_nan magnitude
float_eq a b = not (is_nan a) && not (is_nan b) && (a == b || magnitude a == 0 && magnitude b == 0)

-- `a >= b`.
unfoldable pub float_ge : ℕ → ℕ → Bool
unfolding float_lt float_eq
float_ge a b = float_lt b a || float_eq a b

unfoldable pub encode_float64 : ℕ → Bytes
unfolding float_ge
encode_float64 v = put_be 8 (if float_ge v 0 then bit_xor v sign_bit else complement v)

unfoldable pub decode_float64 : Bytes → ℕ
decode_float64 b =
    let bits = get_be 8 b in
    if not (bit_and bits sign_bit == 0) then bit_xor bits sign_bit else complement bits

unfoldable pub encode_uint64 : ℕ → Bytes
encode_uint64 v = put_be 8 v

unfoldable pub decode_uint64 : Bytes → ℕ
decode_uint64 b = get_be 8 b
