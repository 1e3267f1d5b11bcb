-- ===== src/Bytes/Compare.antt =====
-- Equality and prefixes of byte strings.
use mathlib.Core.Path.{ap₂}
use eleone_sql.Common.{◌≡◌, ◌↔◌, refl, arith, [], ◌∷◌, ◌++◌, true}
use eleone_sql.Bytes.{Bytes, bytes_eq, has_prefix}

pub bytes_eq→eq : (a b : Bytes) → bytes_eq a b ≡ true → a ≡ b
unfolding bytes_eq
bytes_eq→eq [] [] h = refl
bytes_eq→eq [] (b ∷ bs) h = cc
bytes_eq→eq (a ∷ xs) [] h = cc
bytes_eq→eq (a ∷ xs) (b ∷ bs) h = ground (arith, bytes_eq→eq xs bs)

pub bytes_eq_refl : (a : Bytes) → bytes_eq a a ≡ true
unfolding bytes_eq
bytes_eq_refl [] = refl
bytes_eq_refl (a ∷ xs) = ground (arith, bytes_eq_refl xs)

prefix_rest : (b p : Bytes) → has_prefix b p ≡ true → (r : Bytes) × (b ≡ p ++ r)
unfolding has_prefix
prefix_rest b [] h = (b, refl)
prefix_rest [] (p ∷ ps) h = cc
prefix_rest (b ∷ bs) (p ∷ ps) h =
    let (r, e) = prefix_rest bs ps (ground arith) in (r, ap₂ (λ x xs. x ∷ xs) (ground arith) e)

pub has_prefix-append : (p r : Bytes) → has_prefix (p ++ r) p ≡ true
unfolding has_prefix
has_prefix-append [] r = refl
has_prefix-append (p ∷ ps) r = ground (arith, has_prefix-append ps r)

-- A string starts with `p` exactly when it is `p` and something more.
pub has_prefix_iff : (b p : Bytes) → (has_prefix b p ≡ true) ↔ ((r : Bytes) × (b ≡ p ++ r))
has_prefix_iff b p = (prefix_rest b p, λ h. rw h.1 (has_prefix-append p h.0))
