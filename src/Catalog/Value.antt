-- ===== src/Catalog/Value.antt =====
-- internal/catalog/value.go: types, values, their sort keys and their order.
pub mod Laws
use eleone_sql.Common.{
  ℕ, ◌+◌, ◌^◌, ◌<◌, ◌%◌, ◌≡◌, ◌⊎◌, Bool, true, false, not, ◌&&◌, ◌||◌, List, [], ◌∷◌, ◌++◌, ltb,
  leb, ◌==◌, if◌then◌else◌, length, compare, Ordering, Option, none, some,
}
use eleone_sql.Common.Int.{compare_ℤ}
use eleone_sql.Bytes.{Bytes, bytes_compare}
use eleone_sql.Encoding.{IsU64, signed64, encode_int64, encode_float64, float_lt, float_eq}

-- `Type`. Any other byte, which only a damaged catalog holds, is `unknown`.
pub data SqlType : Type 0 where
  integer float text boolean : SqlType
  unknown : ℕ → SqlType

-- `Value`: all fields are there whatever the type is, and those that it does not use are zero.
pub record Value : Type 0 where
  pub type : SqlType
  pub null : Bool
  pub i : ℕ
  pub f : ℕ
  pub s : Bytes
  pub b : Bool

-- Go's zero `Value{}`.
abbrev pub zero_value : Value
zero_value = record { type = unknown 0; null = false; i = 0; f = 0; s = []; b = false }

abbrev pub null_value : SqlType → Value
null_value t = record zero_value { type = t; null = true }

abbrev pub int_value : ℕ → Value
int_value v = record zero_value { type = integer; i = v }

abbrev pub float_value : ℕ → Value
float_value v = record zero_value { type = float; f = v }

abbrev pub text_value : Bytes → Value
text_value v = record zero_value { type = text; s = v }

abbrev pub bool_value : Bool → Value
bool_value v = record zero_value { type = boolean; b = v }

unfoldable pub sort_body : Value → Bytes
sort_body v = elim v.type [
  | integer ↦ encode_int64 v.i
  | float ↦ encode_float64 v.f
  | text ↦ v.s
  | boolean ↦ if v.b then 1 ∷ [] else 0 ∷ []
  | unknown n ↦ []
]

unfoldable pub sort_key : Value → Bytes
unfolding sort_body
sort_key v = elim v.null [ true ↦ 0x00 ∷ [] | false ↦ 0x01 ∷ sort_body v ]

-- `compareFloat`. The results -1, 0 and 1 are lt, eq and gt.
unfoldable pub compare_float : ℕ → ℕ → Ordering
compare_float a b =
    if float_lt a b then Ordering.lt else if float_lt b a then Ordering.gt else Ordering.eq

-- `compare_typed` is the switch of `Compare`; `to_float` is Go's conversion float64(int64).
module _ (to_float : ℕ → ℕ) where
  unfoldable pub compare_typed : SqlType → Value → Value → Ordering
  unfolding compare_float
  compare_typed integer a b = elim b.type [
    | float ↦ compare_float (to_float a.i) b.f
    | _ ↦ compare_ℤ (signed64 a.i) (signed64 b.i)
  ]
  compare_typed float a b = elim b.type [
    | integer ↦ compare_float a.f (to_float b.i)
    | _ ↦ compare_float a.f b.f
  ]
  compare_typed text a b = bytes_compare a.s b.s
  compare_typed boolean a b =
      if a.b
      then (if b.b then Ordering.eq else Ordering.gt)
      else (if b.b then Ordering.lt else Ordering.eq)
  compare_typed (unknown n) a b = Ordering.eq

  unfoldable pub compare_values : Value → Value → Ordering
  unfolding compare_typed
  compare_values a b =
      if a.null && b.null
      then Ordering.eq
      else if a.null
      then Ordering.lt
      else if b.null
      then Ordering.gt
      else compare_typed a.type a b

unfoldable pub truthy : Value → Bool
truthy v = elim v.null [
  | true ↦ false
  | false ↦ elim v.type [
    | boolean ↦ v.b
    | integer ↦ not (v.i == 0)
    | float ↦ not (float_eq v.f 0)
    | text ↦ not (length v.s == 0)
    | unknown n ↦ false
  ]
]

-- What a column of type `t` holds: NULL, or what the constructor of that type makes.
abbrev pub Payload : SqlType → Value → Type 0
Payload integer v = (n : ℕ) × IsU64 n × (v ≡ int_value n)
Payload float v = (n : ℕ) × IsU64 n × (v ≡ float_value n)
Payload text v = (s : Bytes) × (length s < 2 ^ 32) × (v ≡ text_value s)
Payload boolean v = (b : Bool) × (v ≡ bool_value b)
Payload (unknown n) v = ⊥

abbrev pub IsOfType : SqlType → Value → Type 0
IsOfType t v = (v ≡ null_value t) ⊎ Payload t v
