-- ===== src/Wire/RoundTrip.antt =====
-- internal/server/wire/wire.go: what a client reads of what the server wrote.
use eleone_sql.Common.{
  length, ℕ, ◌≡◌, ◌≢◌, refl, ap, sym, ◌∙◌, arith, true, false, List, [], ◌∷◌, ◌++◌, append_assoc,
  ◌==◌, ==_iff, ok, All, Bool-cases, inl, inr,
}
use eleone_sql.Bytes.{Bytes, bytes_eq, has_prefix}
use eleone_sql.Wire.{
  table, write_result, columns_word, rows_word, read_column_names, fetched, read_table, join, split,
  lines_of, trim_prefix, err_word, row_word, end_word, failed, write_rows, one_line, write_error,
  read_rows, read_lines, read_result,
}

-- No byte of the string is `c`.
abbrev pub Lacks : ℕ → Bytes → Type 0
Lacks c s = All (λ b. b ≢ c) s

differs : (b c : ℕ) → b ≢ c → (b == c) ≡ false
differs b c h = elim (Bool-cases (b == c)) [ inl e ↦ absurd (h ((==_iff b c).0 e)) | inr e ↦ e ]

lines_of-line : (l rest : Bytes) → Lacks 10 l → lines_of (l ++ (10 ∷ rest)) ≡ l ∷ lines_of rest
unfolding lines_of
lines_of-line [] rest h = refl
lines_of-line (b ∷ bs) rest h = rw (differs b 10 h.0, lines_of-line bs rest h.1) refl

split-lone : (c : ℕ) (x : Bytes) → Lacks c x → split c x ≡ x ∷ []
unfolding split
split-lone c [] h = refl
split-lone c (b ∷ bs) h = rw (differs b c h.0, split-lone c bs h.1) refl

self : (c : ℕ) → (c == c) ≡ true
self c = (==_iff c c).1 refl

split-first : (c : ℕ) (x s : Bytes) → Lacks c x → split c (x ++ (c ∷ s)) ≡ x ∷ split c s
unfolding split
split-first c [] s h = rw (self c) refl
split-first c (b ∷ bs) s h = rw (differs b c h.0, split-first c bs s h.1) refl

-- Splitting a joined list at the separator gives the list back, if no string holds the separator.
split-join :
    (c : ℕ) (x : Bytes) (xs : List Bytes)
    → All (Lacks c) (x ∷ xs)
    → split c (join c (x ∷ xs)) ≡ x ∷ xs
unfolding join
split-join c x [] h = split-lone c x h.0
split-join c x (y ∷ ys) h =
    split-first c x (join c (y ∷ ys)) h.0 ∙ ap (λ l. x ∷ l) (split-join c y ys h.1)

Lacks-append : (c : ℕ) (a b : Bytes) → Lacks c a → Lacks c b → Lacks c (a ++ b)
Lacks-append c [] b ha hb = hb
Lacks-append c (x ∷ xs) b ha hb = (ha.0, Lacks-append c xs b ha.1 hb)

Lacks-join : (c sep : ℕ) (xs : List Bytes) → sep ≢ c → All (Lacks c) xs → Lacks c (join sep xs)
unfolding join
Lacks-join c sep [] h a = tt
Lacks-join c sep (x ∷ []) h a = a.0
Lacks-join c sep (x ∷ (y ∷ ys)) h a =
    Lacks-append c x (sep ∷ join sep (y ∷ ys)) a.0 (h, Lacks-join c sep (y ∷ ys) h a.1)

-- A row with one cell at least, none with a tab or a newline.
pub record IsCleanRow (row : List Bytes) : Type 0 where
  pub first : Bytes
  pub others : List Bytes
  pub cells : row ≡ first ∷ others
  pub no_tabs : All (Lacks 9) (first ∷ others)
  pub no_newlines : All (Lacks 10) (first ∷ others)

row_line : (row : List Bytes) → IsCleanRow row → Lacks 10 (row_word ++ join 9 row)
row_line row h =
    Lacks-append 10 row_word (join 9 row)
      (omega arith, (omega arith, (omega arith, (omega arith, tt))))
      (rw h.cells (Lacks-join 10 9 (h.first ∷ h.others) (omega arith) h.no_newlines))

row_back :
    (row : List Bytes)
    → IsCleanRow row
    → split 9 (trim_prefix (row_word ++ join 9 row) row_word) ≡ row
unfolding trim_prefix has_prefix
row_back row h =
    ap (λ r. split 9 (join 9 r)) h.cells ∙ split-join 9 h.first h.others h.no_tabs ∙ sym h.cells

not_end : (s : Bytes) → bytes_eq (row_word ++ s) end_word ≡ false
unfolding bytes_eq
not_end s = refl

read_rows-write_rows :
    (rows : List (List Bytes)) (rest : Bytes)
    → All IsCleanRow rows
    → read_rows (lines_of (write_rows rows ++ rest)) ≡ ok rows
unfolding write_rows read_rows lines_of bytes_eq
read_rows-write_rows [] rest h = refl
read_rows-write_rows (row ∷ rows) rest h =
    ap (λ s. read_rows (lines_of s))
      (append_assoc (row_word ++ join 9 row) (10 ∷ write_rows rows) rest)
    ∙ ap read_rows
        (lines_of-line (row_word ++ join 9 row) (write_rows rows ++ rest) (row_line row h.0))
    ∙ rw (not_end (join 9 row), read_rows-write_rows rows rest h.1)
        (ap (λ r. ok (r ∷ rows)) (row_back row h.0))

one_line-Lacks : (message : Bytes) → Lacks 10 (one_line message)
unfolding one_line
one_line-Lacks [] = tt
one_line-Lacks (b ∷ bs) = (
  elim (Bool-cases (b == 10)) [
    | inl e ↦ rw e (omega arith)
    | inr e ↦ rw e (λ q. cc ((==_iff b 10).1 q))
  ],
  one_line-Lacks bs,
)

-- The second text is the first with a space in place of each newline.
pub data IsSpaced : Bytes → Bytes → Type 0 where
  nothing : IsSpaced [] []
  newline : {s r : Bytes} → IsSpaced s r → IsSpaced (10 ∷ s) (32 ∷ r)
  other : {b : ℕ} {s r : Bytes} → b ≢ 10 → IsSpaced s r → IsSpaced (b ∷ s) (b ∷ r)

one_line-IsSpaced : (message : Bytes) → IsSpaced message (one_line message)
unfolding one_line
one_line-IsSpaced [] = nothing
one_line-IsSpaced (b ∷ bs) = elim (Bool-cases (b == 10)) [
  | inl e ↦ rw ((==_iff b 10).0 e, one_line) (newline (one_line-IsSpaced bs))
  | inr e ↦ rw (e, one_line) (other (λ q. cc ((==_iff b 10).1 q)) (one_line-IsSpaced bs))
]

read_error :
    (atoi : Bytes → ℕ) (message rest : Bytes)
    → read_result atoi (write_error message ++ rest) ≡ ok (failed (one_line message))
unfolding read_result write_error read_lines has_prefix
read_error atoi message rest =
    ap (λ s. read_lines atoi (lines_of s))
      (append_assoc (err_word ++ one_line message) (10 ∷ []) rest)
    ∙ ap (read_lines atoi) (
        lines_of-line (err_word ++ one_line message) rest (
          Lacks-append 10 err_word (one_line message)
            (omega arith, (omega arith, (omega arith, (omega arith, tt))))
            (one_line-Lacks message)))
    ∙ refl

-- Whatever the text of an error is and whatever follows it, the client gets a failed result whose
-- text is that of the server with a space in place of each newline.
pub read_result-write_error :
    (atoi : Bytes → ℕ) (message rest : Bytes)
    → (text : Bytes) × (read_result atoi (write_error message ++ rest) ≡ ok (failed text))
      × IsSpaced message text
read_result-write_error atoi message rest =
    (one_line message, read_error atoi message rest, one_line-IsSpaced message)

not_empty : (s : Bytes) → s ≢ [] → bytes_eq s [] ≡ false
unfolding bytes_eq
not_empty [] h = absurd (h refl)
not_empty (b ∷ bs) h = refl

read_column_names-join :
    (columns : List Bytes)
    → IsCleanRow columns
    → join 9 columns ≢ []
    → read_column_names (columns_word ++ (9 ∷ join 9 columns)) ≡ columns
unfolding read_column_names bytes_eq trim_prefix has_prefix
read_column_names-join columns h n =
    rw (not_empty (join 9 columns) n)
      (ap (λ r. split 9 (join 9 r)) h.cells ∙ split-join 9 h.first h.others h.no_tabs ∙ sym h.cells)

columns_line :
    (columns : List Bytes) → IsCleanRow columns → Lacks 10 (columns_word ++ (9 ∷ join 9 columns))
columns_line columns h =
    Lacks-append 10 columns_word (9 ∷ join 9 columns)
      (
        omega arith,
        (
          omega arith,
          (omega arith, (omega arith, (omega arith, (omega arith, (omega arith, tt))))),
        ),
      )
      (omega arith, rw h.cells (Lacks-join 10 9 (h.first ∷ h.others) (omega arith) h.no_newlines))

rows_line : (digits : Bytes) → Lacks 10 digits → Lacks 10 (rows_word ++ digits)
rows_line digits h =
    Lacks-append 10 rows_word digits
      (omega arith, (omega arith, (omega arith, (omega arith, (omega arith, tt))))) h

read_table_lem :
    (l : Bytes) (ls columns : List Bytes) (rows : List (List Bytes))
    → read_rows ls ≡ ok rows
    → read_column_names l ≡ columns
    → read_table (l ∷ ls) ≡ ok (fetched columns rows)
unfolding read_table
read_table_lem l ls columns rows h k = rw (h, k, read_table) refl

-- If no decimal number holds a newline: a client reads back the columns and the cells of a query's
-- rows, whatever follows, if there is at least one column and not a single one without a name, no
-- row is without cells, and no name or cell holds a tab or a newline.
pub read_result-write_result :
    (show : ℕ → Bytes) (atoi : Bytes → ℕ)
    → ((n : ℕ) → Lacks 10 (show n))
    → (columns : List Bytes) (rows : List (List Bytes)) (rest : Bytes) → IsCleanRow columns
    → join 9 columns ≢ []
    → All IsCleanRow rows
    → read_result atoi (write_result show (table columns rows) ++ rest) ≡ ok (fetched columns rows)
unfolding read_result write_result read_lines has_prefix
read_result-write_result show atoi digits columns rows rest hc n hr =
    let head = rows_word ++ show (length columns) in
    let names = columns_word ++ (9 ∷ join 9 columns) in
    ap (λ s. read_lines atoi (lines_of s))
      (append_assoc head (10 ∷ (names ++ (10 ∷ write_rows rows))) rest
        ∙ ap (λ s. head ++ (10 ∷ s)) (append_assoc names (10 ∷ write_rows rows) rest))
    ∙ ap (read_lines atoi) (
        lines_of-line head (names ++ (10 ∷ (write_rows rows ++ rest)))
          (rows_line (show (length columns)) (digits (length columns)))
        ∙ ap (λ ls. head ∷ ls)
            (lines_of-line names (write_rows rows ++ rest) (columns_line columns hc)))
    ∙ read_table_lem names (lines_of (write_rows rows ++ rest)) columns rows
        (read_rows-write_rows rows rest hr) (read_column_names-join columns hc n)
