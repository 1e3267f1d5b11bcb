-- ===== src/Wire.antt =====
-- internal/server/wire/wire.go: the answers of the server as lines of text, and how a client reads
-- them. A reader is the list of the bytes that come.
pub mod RoundTrip
use eleone_sql.Common.{
  ℕ, suc, Bool, true, false, not, ◌&&◌, ◌||◌, List, [], ◌∷◌, ◌++◌, ◌==◌, if◌then◌else◌, length,
  drop, map, Option, none, some, Result, ok, err,
}
use eleone_sql.Bytes.{Bytes, bytes_eq, has_prefix}

-- `strings.Join` with a one-byte separator.
unfoldable pub join : ℕ → List Bytes → Bytes
join sep [] = []
join sep (x ∷ []) = x
join sep (x ∷ (y ∷ ys)) = x ++ (sep ∷ join sep (y ∷ ys))

-- `strings.Split` at a one-byte separator: always one piece at least.
unfoldable pub split : ℕ → Bytes → List Bytes
split sep [] = [] ∷ []
split sep (b ∷ bs) =
    let rest = split sep bs in
    if b == sep then [] ∷ rest else elim rest [ [] ↦ (b ∷ []) ∷ [] | x ∷ xs ↦ (b ∷ x) ∷ xs ]

-- The lines that `ReadString('\n')` gives one by one, without their ends. Bytes behind the last
-- newline make no line: there it fails with EOF.
unfoldable pub lines_of : Bytes → List Bytes
lines_of [] = []
lines_of (b ∷ bs) =
    let rest = lines_of bs in
    if b == 10 then [] ∷ rest else elim rest [ [] ↦ [] | l ∷ ls ↦ (b ∷ l) ∷ ls ]

-- `strings.TrimPrefix`.
unfoldable pub trim_prefix : Bytes → Bytes → Bytes
trim_prefix s prefix = if has_prefix s prefix then drop (length prefix) s else s

-- "OK ", "ERR ", "ROWS ", "COLUMNS", "ROW" and a tab, and "END".
abbrev pub ok_word : Bytes
ok_word = 79 ∷ 75 ∷ 32 ∷ []

abbrev pub err_word : Bytes
err_word = 69 ∷ 82 ∷ 82 ∷ 32 ∷ []

abbrev pub rows_word : Bytes
rows_word = 82 ∷ 79 ∷ 87 ∷ 83 ∷ 32 ∷ []

abbrev pub columns_word : Bytes
columns_word = 67 ∷ 79 ∷ 76 ∷ 85 ∷ 77 ∷ 78 ∷ 83 ∷ []

abbrev pub row_word : Bytes
row_word = 82 ∷ 79 ∷ 87 ∷ 9 ∷ []

abbrev pub end_word : Bytes
end_word = 69 ∷ 78 ∷ 68 ∷ []

-- An `engine.Result`, its cells as the strings that `Value.String` gives. `done` is one whose
-- columns and rows are both nil.
pub data EngineResult : Type 0 where
  done : ℕ → Bytes → EngineResult
  table : List Bytes → List (List Bytes) → EngineResult

-- `ClientResult`: an answer, the rows of a query, or the text of an error.
pub data ClientResult : Type 0 where
  finished : ℕ → Bytes → ClientResult
  fetched : List Bytes → List (List Bytes) → ClientResult
  failed : Bytes → ClientResult

pub data WireError : Type 0 where
  eof : WireError
  unexpected_line : Bytes → WireError

unfoldable pub write_rows : List (List Bytes) → Bytes
write_rows [] = end_word ++ (10 ∷ [])
write_rows (row ∷ rows) = (row_word ++ join 9 row) ++ (10 ∷ write_rows rows)

-- `show` writes a number in decimal, as %d does.
unfoldable pub write_result : (ℕ → Bytes) → EngineResult → Bytes
unfolding write_rows join
write_result show (done n message) = (ok_word ++ (show n ++ (32 ∷ message))) ++ (10 ∷ [])
write_result show (table columns rows) =
    (rows_word ++ show (length columns))
    ++ (10 ∷ ((columns_word ++ (9 ∷ join 9 columns)) ++ (10 ∷ write_rows rows)))

-- `strings.ReplaceAll` of newlines by spaces.
unfoldable pub one_line : Bytes → Bytes
one_line message = map (λ b. if b == 10 then 32 else b) message

unfoldable pub write_error : Bytes → Bytes
unfolding one_line
write_error message = (err_word ++ one_line message) ++ (10 ∷ [])

-- The parts before and after the first space; the second is empty where there is none.
unfoldable pub split_space : Bytes → Bytes × Bytes
split_space [] = ([], [])
split_space (b ∷ bs) =
    let rest = split_space bs in if b == 32 then ([], bs) else (b ∷ rest.0, rest.1)

-- The loop over the lines of rows.
unfoldable pub read_rows : List Bytes → Result WireError (List (List Bytes))
unfolding trim_prefix split
read_rows [] = err eof
read_rows (l ∷ ls) =
    let rest = read_rows ls in
    if bytes_eq l end_word
    then ok []
    else elim rest [ err e ↦ err e | ok rows ↦ ok (split 9 (trim_prefix l row_word) ∷ rows) ]

unfoldable pub read_column_names : Bytes → List Bytes
unfolding trim_prefix split
read_column_names l =
    if bytes_eq l (columns_word ++ (9 ∷ [])) || bytes_eq l columns_word
    then []
    else split 9 (trim_prefix l (columns_word ++ (9 ∷ [])))

unfoldable pub read_table : List Bytes → Result WireError ClientResult
unfolding read_column_names read_rows
read_table [] = err eof
read_table (l ∷ ls) = elim (read_rows ls) [
  | err e ↦ err e
  | ok rows ↦ ok (fetched (read_column_names l) rows)
]

-- The switch on the first line. `atoi` is the number that `strconv.Atoi` gives.
unfoldable pub read_lines : (Bytes → ℕ) → List Bytes → Result WireError ClientResult
unfolding split_space read_table
read_lines atoi [] = err eof
read_lines atoi (l ∷ ls) =
    if has_prefix l ok_word
    then (let parts = split_space (drop 3 l) in ok (finished (atoi parts.0) parts.1))
    else if has_prefix l err_word
    then ok (failed (drop 4 l))
    else if has_prefix l rows_word
    then read_table ls
    else err (unexpected_line l)

unfoldable pub read_result : (Bytes → ℕ) → Bytes → Result WireError ClientResult
unfolding lines_of read_lines
read_result atoi input = read_lines atoi (lines_of input)
