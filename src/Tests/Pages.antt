-- ===== src/Tests/Pages.antt =====
-- internal/storage/btree.go on a small page.
use eleone_sql.Common.{◌≡◌, refl, arith, true, [], ◌∷◌, Ordering}
use eleone_sql.Bytes.{Bytes, bytes_compare, get_be, be_value}
use eleone_sql.Storage.{
  read_at, is_leaf, num_cells, cell_offset, leaf_key_value, key_at, find_index, find_loop,
}
use eleone_sql.Storage.Search.{IsAscending, IsLowerBound, find_index-IsLowerBound}

-- A leaf with the keys 3 and 7 and the values 8 and 9; its cells stand behind the offsets.
abbrev leaf : Bytes
leaf =
    1 ∷ 0 ∷ 2 ∷ 0 ∷ 0 ∷ 0 ∷ 0 ∷ 0 ∷ 13 ∷ 0 ∷ 19 ∷ 0 ∷ 13 ∷ 0 ∷ 1 ∷ 0 ∷ 1 ∷ 7 ∷ 9 ∷ 0 ∷ 1 ∷ 0 ∷ 1 ∷ 3
    ∷ 8 ∷ []

two_cells : num_cells leaf ≡ 2
unfolding num_cells read_at get_be be_value
two_cells = refl

keys_ascend : bytes_compare (key_at leaf 0) (key_at leaf 1) ≡ Ordering.lt
unfolding key_at is_leaf leaf_key_value cell_offset read_at get_be be_value bytes_compare
keys_ascend = refl

found_second : find_index leaf (7 ∷ []) ≡ (1, true)
unfolding find_index find_loop key_at is_leaf leaf_key_value cell_offset num_cells read_at get_be
    be_value bytes_compare
found_second = refl

ascending : IsAscending (key_at leaf) (num_cells leaf)
ascending i j h k =
    let first : i ≡ 0 = omega (arith, two_cells) in
    let second : j ≡ 1 = omega (arith, two_cells) in rw (first, second) keys_ascend

find_index-IsLowerBound_example :
    IsLowerBound (key_at leaf) (num_cells leaf) (5 ∷ []) (find_index leaf (5 ∷ []))
find_index-IsLowerBound_example = find_index-IsLowerBound leaf (5 ∷ []) ascending
