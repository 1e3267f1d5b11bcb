-- ===== src/Storage/Search.antt =====
-- internal/storage/btree.go: findIndex is the lower bound of a key among ascending keys.
use eleone_sql.Common.{
  ℕ, zero, suc, ◌+◌, ◌/◌, ◌≤◌, ◌<◌, ◌≡◌, ◌≢◌, refl, arith, Bool, true, false, [], ◌∷◌, ltb,
  Ordering, Bool-cases, inl, inr, ltb→lt, ltb→le,
}
use eleone_sql.Bytes.{Bytes, bytes_compare}
use eleone_sql.Storage.{find_loop, find_index, key_at, num_cells}

bytes_compare→eq : (a b : Bytes) → bytes_compare a b ≡ Ordering.eq → a ≡ b
unfolding bytes_compare
bytes_compare→eq [] [] h = refl
bytes_compare→eq [] (b ∷ bs) h = cc
bytes_compare→eq (a ∷ xs) [] h = cc
bytes_compare→eq (a ∷ xs) (b ∷ bs) h = ground (arith, bytes_compare→eq xs bs)

bytes_compare_refl : (a : Bytes) → bytes_compare a a ≡ Ordering.eq
unfolding bytes_compare
bytes_compare_refl [] = refl
bytes_compare_refl (a ∷ xs) = ground (arith, bytes_compare_refl xs)

-- A key below one that is below another, and one above one that is above another.
bytes_compare-below :
    (a b c : Bytes)
    → bytes_compare a b ≡ Ordering.lt
    → bytes_compare b c ≡ Ordering.lt
    → bytes_compare a c ≡ Ordering.lt
unfolding bytes_compare
bytes_compare-below [] [] c h k = cc
bytes_compare-below (a ∷ xs) [] c h k = cc
bytes_compare-below a (b ∷ bs) [] h k = cc
bytes_compare-below [] (b ∷ bs) (c ∷ cs) h k = refl
bytes_compare-below (a ∷ xs) (b ∷ bs) (c ∷ cs) h k = ground (arith, bytes_compare-below xs bs cs)

bytes_compare-above :
    (a b c : Bytes)
    → bytes_compare a b ≡ Ordering.lt
    → bytes_compare a c ≡ Ordering.gt
    → bytes_compare b c ≡ Ordering.gt
unfolding bytes_compare
bytes_compare-above a [] [] h k = ground (arith, h, k)
bytes_compare-above [] (b ∷ bs) [] h k = refl
bytes_compare-above (a ∷ xs) (b ∷ bs) [] h k = refl
bytes_compare-above [] b (c ∷ cs) h k = cc
bytes_compare-above (a ∷ xs) [] (c ∷ cs) h k = cc
bytes_compare-above (a ∷ xs) (b ∷ bs) (c ∷ cs) h k = ground (arith, bytes_compare-above xs bs cs)

module _ (keys : ℕ → Bytes) (n : ℕ) where
  abbrev pub IsAscending : Type 0
  IsAscending = (i j : ℕ) → i < j → j < n → bytes_compare (keys i) (keys j) ≡ Ordering.lt

  -- All keys in front of the index are below the key, and those from it on are not; the flag says
  -- whether the one at the index is the key itself.
  pub record IsLowerBound (key : Bytes) (r : ℕ × Bool) : Type 0 where
    pub inside : r.0 ≤ n
    pub below : (i : ℕ) → i < r.0 → bytes_compare (keys i) key ≡ Ordering.lt
    pub above : (i : ℕ) → r.0 ≤ i → i < n → bytes_compare (keys i) key ≢ Ordering.lt
    pub found : r.1 ≡ true → (r.0 < n) × (keys r.0 ≡ key)
    pub missing : r.1 ≡ false → (i : ℕ) → i < n → keys i ≢ key

  module _ (ascending : IsAscending) (key : Bytes) where
    not_below_match :
        (m i : ℕ)
        → m ≤ i
        → i < n
        → bytes_compare (keys m) key ≡ Ordering.eq
        → bytes_compare (keys i) key ≢ Ordering.lt
    not_below_match m i le lt e k = elim (Bool-cases (ltb m i)) [
      | inl h ↦
          let low = bytes_compare-below (keys m) (keys i) key (ascending m i (ltb→lt m i h) lt) k in
          cc
      | inr h ↦ let same : i ≡ m = omega (arith, ltb→le m i h) in let k' = rw same at k in cc
    ]

    -- What one comparison says of all keys on its side.
    up_to :
        (i m : ℕ)
        → i ≤ m
        → m < n
        → bytes_compare (keys m) key ≡ Ordering.lt
        → bytes_compare (keys i) key ≡ Ordering.lt
    up_to i m le lt e = elim (Bool-cases (ltb i m)) [
      | inl h ↦ bytes_compare-below (keys i) (keys m) key (ascending i m (ltb→lt i m h) lt) e
      | inr h ↦ let same : i ≡ m = omega (arith, ltb→le i m h) in rw same e
    ]

    from :
        (i m : ℕ)
        → m ≤ i
        → i < n
        → bytes_compare (keys m) key ≡ Ordering.gt
        → bytes_compare (keys i) key ≡ Ordering.gt
    from i m le lt e = elim (Bool-cases (ltb m i)) [
      | inl h ↦ bytes_compare-above (keys m) (keys i) key (ascending m i (ltb→lt m i h) lt) e
      | inr h ↦ let same : i ≡ m = omega (arith, ltb→le m i h) in rw same e
    ]

    at_match :
        (m : ℕ) → m < n → bytes_compare (keys m) key ≡ Ordering.eq → IsLowerBound key (m, true)
    at_match m lt e =
        let same = bytes_compare→eq (keys m) key e in
        record {
          inside = omega arith;
          below = λ i h. rw same at (ascending i m h lt);
          above = λ i h h'. not_below_match m i h h' e;
          found = λ h. (lt, same);
          missing = λ h. cc;
        }

    at_end :
        (lo hi : ℕ)
        → hi ≤ lo
        → lo ≤ hi
        → hi ≤ n
        → ((i : ℕ) → i < lo → bytes_compare (keys i) key ≡ Ordering.lt)
        → ((i : ℕ) → hi ≤ i → i < n → bytes_compare (keys i) key ≡ Ordering.gt)
        → IsLowerBound key (lo, false)
    at_end lo hi le le' len below above = record {
      inside = omega arith;
      below = below;
      above = λ i h h' e. let high = above i (omega arith) h' in cc;
      found = λ h. cc;
      missing = λ h i h' e. not_here i h' e;
    }
      where
        not_here : (i : ℕ) → i < n → keys i ≢ key
        not_here i h e = elim (Bool-cases (ltb i lo)) [
          | inl low ↦
              let b = rw e at (below i (ltb→lt i lo low)) in let r = bytes_compare_refl key in cc
          | inr high ↦
              let a = rw e at (above i (omega (arith, ltb→le i lo high)) h) in
              let r = bytes_compare_refl key in cc
        ]

    -- The loop with its fuel, from a range outside of which every key is on its side.
    abbrev Loops : ℕ → Type 0
    Loops fuel =
        (lo hi : ℕ)
        → hi ≤ lo + fuel
        → lo ≤ hi
        → hi ≤ n
        → ((i : ℕ) → i < lo → bytes_compare (keys i) key ≡ Ordering.lt)
        → ((i : ℕ) → hi ≤ i → i < n → bytes_compare (keys i) key ≡ Ordering.gt)
        → IsLowerBound key (find_loop keys key fuel lo hi)

    compared :
        (fuel lo hi m : ℕ) (o : Ordering)
        → Loops fuel
        → bytes_compare (keys m) key ≡ o
        → lo ≤ m
        → m < hi
        → hi ≤ lo + suc fuel
        → hi ≤ n
        → ((i : ℕ) → i < lo → bytes_compare (keys i) key ≡ Ordering.lt)
        → ((i : ℕ) → hi ≤ i → i < n → bytes_compare (keys i) key ≡ Ordering.gt)
        → IsLowerBound key (elim o [
          | Ordering.eq ↦ (m, true)
          | Ordering.lt ↦ find_loop keys key fuel (m + 1) hi
          | Ordering.gt ↦ find_loop keys key fuel lo m
        ])
    compared fuel lo hi m Ordering.eq loops e lm mh enough len below above =
        at_match m (omega arith) e
    compared fuel lo hi m Ordering.lt loops e lm mh enough len below above =
        loops (m + 1) hi (omega arith) (omega arith) len
          (λ i h. up_to i m (omega arith) (omega arith) e) above
    compared fuel lo hi m Ordering.gt loops e lm mh enough len below above =
        loops lo m (omega arith) lm (omega arith) below (λ i h h'. from i m h h' e)

    find_loop-IsLowerBound : (fuel : ℕ) → Loops fuel
    unfolding find_loop
    find_loop-IsLowerBound zero lo hi enough le len below above =
        at_end lo hi (omega arith) le len below above
    find_loop-IsLowerBound (suc fuel) lo hi enough le len below above =
        elim (Bool-cases (ltb lo hi)) [
          | inr done ↦ rw (done, find_loop) (at_end lo hi (ltb→le lo hi done) le len below above)
          | inl more ↦
              let lt = ltb→lt lo hi more in
              rw (more, find_loop)
                (compared fuel lo hi ((lo + hi) / 2) (bytes_compare (keys ((lo + hi) / 2)) key)
                  (find_loop-IsLowerBound fuel) refl (omega arith) (omega arith) enough len below
                  above)
        ]

-- In a node whose keys ascend, findIndex gives the index in front of which all keys are below the
-- given key and from which on none is; it reports a match exactly where the key at that index is
-- the given one, and otherwise no key of the node is.
pub find_index-IsLowerBound :
    (buf key : Bytes)
    → IsAscending (key_at buf) (num_cells buf)
    → IsLowerBound (key_at buf) (num_cells buf) key (find_index buf key)
unfolding find_index
find_index-IsLowerBound buf key ascending =
    find_loop-IsLowerBound (key_at buf) (num_cells buf) ascending key (num_cells buf) 0
      (num_cells buf) (omega arith) (omega arith) (omega arith) (λ i h. absurd (omega arith))
      (λ i h h'. absurd (omega arith))
