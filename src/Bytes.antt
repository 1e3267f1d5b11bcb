-- ===== src/Bytes.antt =====
-- What the code takes from Go's packages encoding/binary, bytes and strings. A byte slice and a
-- Go string are lists of numbers below 256.
pub mod BigEndian
pub mod Compare
use eleone_sql.Common.{
  ℕ, zero, suc, ◌+◌, ◌*◌, ◌/◌, ◌%◌, ◌<◌, Bool, true, false, ◌&&◌, List, [], ◌∷◌, ◌++◌, take,
  Ordering, compare, ◌==◌,
}

abbrev pub Bytes : Type 0
Bytes = List ℕ

abbrev pub IsByte : ℕ → Type 0
IsByte b = b < 256

-- `binary.BigEndian.PutUint16`, `PutUint32` and `PutUint64` at the widths 2, 4 and 8.
unfoldable pub put_be : ℕ → ℕ → Bytes
put_be zero v = []
put_be (suc k) v = put_be k (v / 256) ++ (v % 256) ∷ []

unfoldable pub be_value : ℕ → Bytes → ℕ
be_value acc [] = acc
be_value acc (b ∷ bs) = be_value (acc * 256 + b) bs

-- `binary.BigEndian.Uint16`, `Uint32` and `Uint64` read the first bytes of a slice.
unfoldable pub get_be : ℕ → Bytes → ℕ
unfolding be_value
get_be k bs = be_value 0 (take k bs)

-- `bytes.Compare` and `strings.Compare`.
unfoldable pub bytes_compare : Bytes → Bytes → Ordering
bytes_compare [] [] = Ordering.eq
bytes_compare [] (b ∷ bs) = Ordering.lt
bytes_compare (a ∷ as') [] = Ordering.gt
bytes_compare (a ∷ as') (b ∷ bs) =
    let rest = bytes_compare as' bs in
    elim (compare a b) [
      | Ordering.lt ↦ Ordering.lt
      | Ordering.eq ↦ rest
      | Ordering.gt ↦ Ordering.gt
    ]

-- `==` on Go strings.
unfoldable pub bytes_eq : Bytes → Bytes → Bool
bytes_eq [] [] = true
bytes_eq [] (b ∷ bs) = false
bytes_eq (a ∷ as') [] = false
bytes_eq (a ∷ as') (b ∷ bs) = a == b && bytes_eq as' bs

-- `bytes.HasPrefix`.
unfoldable pub has_prefix : Bytes → Bytes → Bool
has_prefix b [] = true
has_prefix [] (p ∷ ps) = false
has_prefix (b ∷ bs) (p ∷ ps) = b == p && has_prefix bs ps
