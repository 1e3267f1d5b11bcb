-- ===== src/Engine/Scan/Stored.antt =====
-- A full scan of a table whose entries hold encoded rows.
use eleone_sql.Common.{◌≡◌, refl, List, [], ◌∷◌, map, append-nil, ok, All}
use eleone_sql.Bytes.{Bytes}
use eleone_sql.Catalog.Value.{SqlType}
use eleone_sql.Catalog.Row.{encode_row}
use eleone_sql.Catalog.Row.RoundTrip.{IsRow, decode_row-encode_row}
use eleone_sql.Catalog.TableDef.{TableDef, column_types}
use eleone_sql.Txn.Targets.{table_target}
use eleone_sql.Engine.Scan.{KeyedRow, Reader, decode_entries, decoded, fetch_all_rows}

-- The entry of a row in the tree of its table.
abbrev pub entry : KeyedRow → Bytes × Bytes
entry (k, vs) = (k, encode_row vs)

decode_entries-entry :
    (types : List SqlType) (rows : List KeyedRow)
    → All (λ r. IsRow types r.1) rows
    → decode_entries types (map entry rows) ≡ ok rows
unfolding decode_entries decoded
decode_entries-entry types [] h = refl
decode_entries-entry types ((k, vs) ∷ rows) h =
    rw
      (
        rw (append-nil (encode_row vs)) at (decode_row-encode_row types vs [] h.0),
        decode_entries-entry types rows h.1,
      )
      refl

-- Where the cursor of a table gives the encodings of rows of the table's types, the full scan gives
-- exactly these rows with their keys, in the order of the cursor.
pub fetch_all_rows-entry :
    (r : Reader) (td : TableDef) (rows : List KeyedRow)
    → All (λ k. IsRow (column_types td) k.1) rows
    → r.cursor (table_target td.name) [] ≡ ok (map entry rows)
    → fetch_all_rows r td ≡ ok rows
unfolding fetch_all_rows
fetch_all_rows-entry r td rows h e = rw e (decode_entries-entry (column_types td) rows h)
