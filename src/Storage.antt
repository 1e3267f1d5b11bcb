-- ===== src/Storage.antt =====
-- internal/storage/btree.go: the nodes of a b-tree as pages of bytes, and the look-up in a tree.
pub mod Search
use eleone_sql.Common.{
  ℕ, zero, suc, ◌+◌, ◌-◌, ◌*◌, ◌/◌, ◌%◌, ◌^◌, Bool, true, false, [], ◌∷◌, ◌++◌, ltb, ◌==◌,
  if◌then◌else◌, length, take, drop, Option, none, some, Ordering, Result, ok, err,
}
use eleone_sql.Bytes.{Bytes, put_be, get_be, bytes_compare}
use eleone_sql.Catalog.TableDef.{zeros}
use eleone_sql.Txn.Interface.{TreeError, key_not_found}

abbrev pub page_size : ℕ
page_size = 4096

-- The header's fields and the array of the cells' offsets.
abbrev pub leaf_page : ℕ
leaf_page = 1

abbrev pub hdr_num_cells : ℕ
hdr_num_cells = 1

abbrev pub hdr_sibling : ℕ
hdr_sibling = 3

abbrev pub hdr_content_top : ℕ
hdr_content_top = 7

abbrev pub cell_ptr_array_at : ℕ
cell_ptr_array_at = 9

-- A number of `k` bytes at an offset, and bytes written over those at an offset.
unfoldable pub read_at : ℕ → ℕ → Bytes → ℕ
read_at k off buf = get_be k (drop off buf)

unfoldable pub write_at : ℕ → Bytes → Bytes → Bytes
write_at off bs buf = take off buf ++ (bs ++ drop (off + length bs) buf)

unfoldable pub new_node_buf : ℕ → Bytes
unfolding write_at
new_node_buf page_type =
    write_at hdr_content_top (put_be 2 page_size) (page_type ∷ zeros (page_size - 1))

unfoldable pub is_leaf : Bytes → Bool
unfolding read_at
is_leaf buf = read_at 1 0 buf == leaf_page

unfoldable pub num_cells : Bytes → ℕ
unfolding read_at
num_cells buf = read_at 2 hdr_num_cells buf

unfoldable pub sibling : Bytes → ℕ
unfolding read_at
sibling buf = read_at 4 hdr_sibling buf

unfoldable pub content_top : Bytes → ℕ
unfolding read_at
content_top buf = read_at 2 hdr_content_top buf

unfoldable pub cell_offset : Bytes → ℕ → ℕ
unfolding read_at
cell_offset buf i = read_at 2 (cell_ptr_array_at + 2 * i) buf

unfoldable pub set_cell_offset : ℕ → ℕ → Bytes → Bytes
unfolding write_at
set_cell_offset i off buf = write_at (cell_ptr_array_at + 2 * i) (put_be 2 (off % 2 ^ 16)) buf

-- `freeSpace() < need`; Go's difference may be below zero.
unfoldable pub lacks_space : ℕ → Bytes → Bool
unfolding num_cells content_top
lacks_space need buf = ltb (content_top buf) (cell_ptr_array_at + 2 * num_cells buf + need)

unfoldable pub leaf_key_value : Bytes → ℕ → Bytes × Bytes
unfolding cell_offset read_at
leaf_key_value buf i =
    let off = cell_offset buf i in
    let klen = read_at 2 off buf in
    let vlen = read_at 2 (off + 2) buf in
    (take klen (drop (off + 4) buf), take vlen (drop (off + 4 + klen) buf))

unfoldable pub internal_key_child : Bytes → ℕ → Bytes × ℕ
unfolding cell_offset read_at
internal_key_child buf i =
    let off = cell_offset buf i in
    let klen = read_at 2 off buf in (take klen (drop (off + 6) buf), read_at 4 (off + 2) buf)

unfoldable pub key_at : Bytes → ℕ → Bytes
unfolding is_leaf leaf_key_value internal_key_child
key_at buf i = if is_leaf buf then (leaf_key_value buf i).0 else (internal_key_child buf i).0

-- The loop of `findIndex`, whose range is not longer than its fuel.
unfoldable pub find_loop : (ℕ → Bytes) → Bytes → ℕ → ℕ → ℕ → ℕ × Bool
find_loop keys key zero lo hi = (lo, false)
find_loop keys key (suc fuel) lo hi = elim (ltb lo hi) [
  | false ↦ (lo, false)
  | true ↦
      let mid = (lo + hi) / 2 in
      elim (bytes_compare (keys mid) key) [
        | Ordering.eq ↦ (mid, true)
        | Ordering.lt ↦ find_loop keys key fuel (mid + 1) hi
        | Ordering.gt ↦ find_loop keys key fuel lo mid
      ]
]

unfoldable pub find_index : Bytes → Bytes → ℕ × Bool
unfolding key_at num_cells find_loop
find_index buf key = find_loop (key_at buf) key (num_cells buf) 0 (num_cells buf)

unfoldable pub leaf_cell_body : Bytes → Bytes → Bytes
leaf_cell_body key val =
    put_be 2 (length key % 2 ^ 16) ++ (put_be 2 (length val % 2 ^ 16) ++ (key ++ val))

unfoldable pub internal_cell_body : Bytes → ℕ → Bytes
internal_cell_body key child = put_be 2 (length key % 2 ^ 16) ++ (put_be 4 child ++ key)

-- The loops that move the offsets: `n` of them, the last one first or the first one first.
unfoldable pub shift_right : ℕ → ℕ → Bytes → Bytes
unfolding set_cell_offset cell_offset
shift_right idx zero buf = buf
shift_right idx (suc n) buf =
    shift_right idx n (set_cell_offset (idx + suc n) (cell_offset buf (idx + n)) buf)

unfoldable pub shift_left : ℕ → ℕ → Bytes → Bytes
unfolding set_cell_offset cell_offset
shift_left idx zero buf = buf
shift_left idx (suc n) buf =
    shift_left (suc idx) n (set_cell_offset idx (cell_offset buf (suc idx)) buf)

-- The answer is whether there is room, at an index that is not above the number of cells.
unfoldable pub insert_cell_at : ℕ → Bytes → Bytes → Bool × Bytes
unfolding lacks_space content_top num_cells write_at shift_right set_cell_offset
insert_cell_at idx body buf = elim (lacks_space (length body + 2) buf) [
  | true ↦ (false, buf)
  | false ↦
      let top = content_top buf - length body in
      let n = num_cells buf in
      let filled = write_at hdr_content_top (put_be 2 (top % 2 ^ 16)) (write_at top body buf) in
      let moved = set_cell_offset idx top (shift_right idx (n - idx) filled) in
      (true, write_at hdr_num_cells (put_be 2 ((n + 1) % 2 ^ 16)) moved)
]

-- At an index below the number of cells.
unfoldable pub remove_cell_at : ℕ → Bytes → Bytes
unfolding num_cells write_at shift_left
remove_cell_at idx buf =
    let n = num_cells buf in
    write_at hdr_num_cells (put_be 2 (n - 1)) (shift_left idx (n - 1 - idx) buf)

-- The child that Get descends to: behind an exact match, and the rightmost one behind the last cell.
unfoldable pub child_for : Bytes → Bytes → ℕ
unfolding find_index num_cells sibling internal_key_child
child_for key buf =
    let (idx, exact) = find_index buf key in
    let i : ℕ = if exact then suc idx else idx in
    if ltb i (num_cells buf) then (internal_key_child buf i).1 else sibling buf

unfoldable pub get_in_leaf : Bytes → Bytes → Result TreeError Bytes
unfolding find_index leaf_key_value
get_in_leaf key buf =
    let (idx, exact) = find_index buf key in
    if exact then ok (leaf_key_value buf idx).1 else err key_not_found
