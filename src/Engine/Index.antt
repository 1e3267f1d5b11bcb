-- ===== src/Engine/Index.antt =====
-- internal/engine/ddl.go, insert.go and scan.go: the keys of secondary indexes, and the entries that a
-- look-up takes for those of a value.
use eleone_sql.Bytes.BigEndian.{length-put_be}
use eleone_sql.Encoding.{encode_float64, encode_int64}
use eleone_sql.Common.{
  inl, inr, ap₂, ℕ, suc, ◌≡◌, refl, ap, sym, ◌∙◌, ◌↔◌, arith, Bool, true, false, [], ◌∷◌, ◌++◌,
  append_assoc, length, if◌then◌else◌,
}
use eleone_sql.Bytes.{Bytes, has_prefix}
use eleone_sql.Bytes.Compare.{has_prefix-append}
use eleone_sql.Catalog.Value.{
  SqlType, integer, float, boolean, Value, text_value, IsOfType, sort_key, Payload,
}

unfoldable pub index_key : Value → Bytes → Bytes
index_key v row_key = sort_key v ++ row_key

-- `cur.Next()` after a seek to `prefix` gives the first key that is not below it, if there is one:
-- the test that `checkUniqueViaTxn` makes of it.
unfoldable pub is_entry_of : Value → Bytes → Bool
is_entry_of v key = has_prefix key (sort_key v)

-- The entry of a value is found for that value, whatever the row.
entry_found : (v : Value) (row_key : Bytes) → is_entry_of v (index_key v row_key) ≡ true
unfolding is_entry_of index_key
entry_found v row_key = has_prefix-append (sort_key v) row_key

-- The entry of any extension of a text is taken for an entry of the text itself.
pub entry_of_extension :
    (a b row_key : Bytes)
    → is_entry_of (text_value a) (index_key (text_value (a ++ b)) row_key) ≡ true
unfolding is_entry_of index_key sort_key
entry_of_extension a b row_key =
    rw (append_assoc a b row_key) (has_prefix-append (1 ∷ a) (b ++ row_key))

-- Strings of one length.
prefix_whole : (a p r : Bytes) → length a ≡ length p → has_prefix (a ++ r) p ≡ true → a ≡ p
unfolding has_prefix
prefix_whole [] [] r l h = refl
prefix_whole [] (p ∷ ps) r l h = absurd (omega arith)
prefix_whole (a ∷ xs) [] r l h = absurd (omega arith)
prefix_whole (a ∷ xs) (p ∷ ps) r l h =
    ap₂ (λ x ys. x ∷ ys) (ground arith) (prefix_whole xs ps r (omega arith) (ground arith))

-- The types whose keys all have one length.
pub data FixedType : Type 0 where
  fixed_integer fixed_float fixed_boolean : FixedType

abbrev pub sql_type : FixedType → SqlType
sql_type fixed_integer = integer
sql_type fixed_float = float
sql_type fixed_boolean = boolean

abbrev key_length : FixedType → ℕ
key_length fixed_integer = 9
key_length fixed_float = 9
key_length fixed_boolean = 2

length-sort_key :
    (t : FixedType) (v : Value) → Payload (sql_type t) v → length (sort_key v) ≡ key_length t
unfolding sort_key encode_int64 encode_float64
length-sort_key fixed_integer v (n, h, e) = rw e (ap suc (length-put_be 8 _))
length-sort_key fixed_float v (n, h, e) = rw e (ap suc (length-put_be 8 _))
length-sort_key fixed_boolean v (true, e) = rw e refl
length-sort_key fixed_boolean v (false, e) = rw e refl

-- The first byte tells a value from NULL.
marked :
    (t : FixedType) (v : Value) → Payload (sql_type t) v → (rest : Bytes) × (sort_key v ≡ 1 ∷ rest)
unfolding sort_key
marked fixed_integer v (n, h, e) = (encode_int64 n, rw e refl)
marked fixed_float v (n, h, e) = (encode_float64 n, rw e refl)
marked fixed_boolean v (b, e) = ((if b then 1 ∷ [] else 0 ∷ []), rw e refl)

entry_same :
    (t : FixedType) (v w : Value) (row_key : Bytes)
    → IsOfType (sql_type t) v
    → IsOfType (sql_type t) w
    → is_entry_of v (index_key w row_key) ≡ true
    → sort_key v ≡ sort_key w
unfolding is_entry_of index_key has_prefix
entry_same t v w row_key (inl ev) (inl ew) h = ap sort_key (ev ∙ sym ew)
entry_same t v w row_key (inl ev) (inr pw) h =
    let (rest, m) = marked t w pw in unfold sort_key in cc (rw (ev, m) at h)
entry_same t v w row_key (inr pv) (inl ew) h =
    let (rest, m) = marked t v pv in unfold sort_key in cc (rw (ew, m) at h)
entry_same t v w row_key (inr pv) (inr pw) h = sym (
    prefix_whole (sort_key w) (sort_key v) row_key
      (length-sort_key t w pw ∙ sym (length-sort_key t v pv)) h)

-- In an index on an integer, float or boolean column, the entries taken for those of a value are
-- exactly the entries with its sort key, whatever their rows.
pub is_entry_of-index_key :
    (t : FixedType) (v w : Value) (row_key : Bytes)
    → IsOfType (sql_type t) v
    → IsOfType (sql_type t) w
    → (is_entry_of v (index_key w row_key) ≡ true) ↔ (sort_key v ≡ sort_key w)
unfolding is_entry_of index_key
is_entry_of-index_key t v w row_key hv hw =
    (entry_same t v w row_key hv hw, λ e. rw e (has_prefix-append (sort_key w) row_key))
