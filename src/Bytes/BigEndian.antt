-- ===== src/Bytes/BigEndian.antt =====
-- Numbers as big-endian bytes: reading back, and the order.
use eleone_sql.Common.{
  ℕ, zero, suc, ◌+◌, ◌*◌, ◌/◌, ◌%◌, ◌^◌, ◌<◌, ◌≡◌, refl, ap, ◌∙◌, sym, arith, [], ◌∷◌, ◌++◌, length,
  length-append, take-append, Ordering, compare, All,
}
use eleone_sql.Bytes.{Bytes, IsByte, put_be, be_value, get_be, bytes_compare}
use native.Mathlib.Nat.{pow-suc}

pub length-put_be : (k v : ℕ) → length (put_be k v) ≡ k
unfolding put_be
length-put_be zero v = refl
length-put_be (suc k) v =
    omega (arith, length-append (put_be k (v / 256)) ((v % 256) ∷ []), length-put_be k (v / 256))

be_value-append :
    (acc : ℕ) (xs : Bytes) (b : ℕ) → be_value acc (xs ++ b ∷ []) ≡ be_value acc xs * 256 + b
unfolding be_value
be_value-append acc [] b = refl
be_value-append acc (x ∷ xs) b = be_value-append (acc * 256 + x) xs b

be_value-put_be : (k v : ℕ) → v < 256 ^ k → be_value 0 (put_be k v) ≡ v
unfolding put_be be_value
be_value-put_be zero v h = omega arith
be_value-put_be (suc k) v h =
    be_value-append 0 (put_be k (v / 256)) (v % 256)
    ∙ omega (arith, be_value-put_be k (v / 256) (omega (arith, pow-suc 256 k)))

-- A fixed-width number that is read back, whatever follows it.
pub get_be-put_be : (k v : ℕ) (rest : Bytes) → v < 256 ^ k → get_be k (put_be k v ++ rest) ≡ v
unfolding get_be
get_be-put_be k v rest h =
    ap (be_value 0) (take-append k (put_be k v) rest (length-put_be k v)) ∙ be_value-put_be k v h

pub put_be-IsByte : (k v : ℕ) → All IsByte (put_be k v)
unfolding put_be
put_be-IsByte zero v = tt
put_be-IsByte (suc k) v = snoc (put_be k (v / 256)) (put_be-IsByte k (v / 256))
  where
    snoc : (xs : Bytes) → All IsByte xs → All IsByte (xs ++ (v % 256) ∷ [])
    snoc [] h = (omega arith, tt)
    snoc (x ∷ xs) h = (h.0, snoc xs h.1)

-- Lexicographic comparison at equal lengths, from the last place.
then_compare : Ordering → ℕ → ℕ → Ordering
then_compare Ordering.lt a b = Ordering.lt
then_compare Ordering.eq a b = compare a b
then_compare Ordering.gt a b = Ordering.gt

bytes_compare-append :
    (xs ys : Bytes) (a b : ℕ)
    → length xs ≡ length ys
    → bytes_compare (xs ++ a ∷ []) (ys ++ b ∷ []) ≡ then_compare (bytes_compare xs ys) a b
unfolding bytes_compare then_compare
bytes_compare-append [] [] a b h = ground arith
bytes_compare-append [] (y ∷ ys) a b h = absurd (omega arith)
bytes_compare-append (x ∷ xs) [] a b h = absurd (omega arith)
bytes_compare-append (x ∷ xs) (y ∷ ys) a b h =
    ground (arith, bytes_compare-append xs ys a b (omega arith))

compare_digits :
    (a b : ℕ) → then_compare (compare (a / 256) (b / 256)) (a % 256) (b % 256) ≡ compare a b
unfolding then_compare
compare_digits a b = ground arith

-- The bytes of two numbers of one width compare as the numbers do.
pub bytes_compare-put_be :
    (k a b : ℕ) → a < 256 ^ k → b < 256 ^ k → bytes_compare (put_be k a) (put_be k b) ≡ compare a b
unfolding put_be bytes_compare
bytes_compare-put_be zero a b ha hb = ground arith
bytes_compare-put_be (suc k) a b ha hb =
    bytes_compare-append (put_be k (a / 256)) (put_be k (b / 256)) (a % 256) (b % 256)
      (length-put_be k (a / 256) ∙ sym (length-put_be k (b / 256)))
    ∙ ap (λ o. then_compare o (a % 256) (b % 256))
        (bytes_compare-put_be k (a / 256) (b / 256) (omega (arith, pow-suc 256 k))
          (omega (arith, pow-suc 256 k)))
    ∙ compare_digits a b
