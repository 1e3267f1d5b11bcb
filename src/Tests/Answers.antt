-- ===== src/Tests/Answers.antt =====
-- internal/server/wire on concrete answers.
use eleone_sql.Common.{ℕ, ◌≡◌, ◌≢◌, refl, arith, [], ◌∷◌, ◌++◌, ok}
use eleone_sql.Bytes.{Bytes}
use eleone_sql.Wire.{table, fetched, failed, join, write_result, write_error, read_result}
use eleone_sql.Wire.RoundTrip.{
  Lacks, IsCleanRow, read_result-write_result, read_result-write_error, IsSpaced,
}

-- "0" for every number: no digit of it is a newline.
abbrev zero_digit : ℕ → Bytes
zero_digit n = 48 ∷ []

digits : (n : ℕ) → Lacks 10 (zero_digit n)
digits n = (omega arith, tt)

name_row : IsCleanRow ((105 ∷ []) ∷ (115 ∷ []) ∷ [])
name_row = record {
  first = 105 ∷ [];
  others = (115 ∷ []) ∷ [];
  cells = refl;
  no_tabs = ((omega arith, tt), ((omega arith, tt), tt));
  no_newlines = ((omega arith, tt), ((omega arith, tt), tt));
}

cell_row : IsCleanRow ((55 ∷ []) ∷ [] ∷ [])
cell_row = record {
  first = 55 ∷ [];
  others = [] ∷ [];
  cells = refl;
  no_tabs = ((omega arith, tt), (tt, tt));
  no_newlines = ((omega arith, tt), (tt, tt));
}

named : join 9 ((105 ∷ []) ∷ (115 ∷ []) ∷ []) ≢ []
unfolding join
named e = cc

read_result-write_result_example :
    read_result
      (λ s. 0)
      (write_result zero_digit (table ((105 ∷ []) ∷ (115 ∷ []) ∷ []) (((55 ∷ []) ∷ [] ∷ []) ∷ []))
        ++ 1 ∷ [])
    ≡ ok (fetched ((105 ∷ []) ∷ (115 ∷ []) ∷ []) (((55 ∷ []) ∷ [] ∷ []) ∷ []))
read_result-write_result_example =
    read_result-write_result zero_digit (λ s. 0) digits ((105 ∷ []) ∷ (115 ∷ []) ∷ [])
      (((55 ∷ []) ∷ [] ∷ []) ∷ []) (1 ∷ []) name_row named (cell_row, tt)

read_result-write_error_example :
    (text : Bytes) × (read_result (λ s. 0) (write_error (98 ∷ 10 ∷ 99 ∷ []) ++ 1 ∷ [])
      ≡ ok (failed text))
    × IsSpaced (98 ∷ 10 ∷ 99 ∷ []) text
read_result-write_error_example = read_result-write_error (λ s. 0) (98 ∷ 10 ∷ 99 ∷ []) (1 ∷ [])
