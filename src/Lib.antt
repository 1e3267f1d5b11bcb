-- ===== src/Lib.antt =====
-- Verification of EleoneSQL, a small SQL database in Go.
--
-- The program has a storage layer (internal/storage: a page file and b-trees over it), a catalog
-- of table definitions (internal/catalog), a write-ahead log (internal/wal), transactions that tie
-- these together (internal/txn), and an engine that runs parsed statements inside a transaction
-- (internal/engine, internal/sqlparser). A write reads the before-image from a b-tree, appends it
-- with the new value to the log, and only then changes the tree. At start the log is replayed: what
-- was committed is done again, and what was left open is undone with the before-images.
--
-- Files and the code that they model:
--   Common       numbers, lists and results that all modules share
--   Bytes        what the code uses of Go's encoding/binary, bytes and strings
--   Encoding     internal/util/encoding.go: order-preserving encodings of numbers
--   Catalog      internal/catalog/value.go in Catalog/Value (types, values, sort keys, Compare,
--                Truthy) and Catalog/Row (EncodeRow, DecodeRow); internal/catalog/catalog.go in
--                Catalog/TableDef (encodeTableDef, decodeTableDef)
--   Wal          internal/wal/wal.go: records and operations as bytes; Wal/Replay is Replay, and
--                Wal/Replay/Events has the methods Begin, Put, Delete, Rollback, Commit as events
--   Txn          internal/txn/txn.go: Begin, Put, Delete, Get, Commit, Rollback, MaybeCheckpoint and
--                the callback of Open; Txn/Targets has resolve. Txn/Interface is what they ask of
--                internal/storage/btree.go and of the catalog, Txn/Working and Txn/Stepped what Put
--                and Delete leave of an open transaction, Txn/Recovery a crash inside one, and
--                Txn/Finished the replay of transactions one after the other
--   Sql          internal/sqlparser: lexer.go in Sql/Lexer; parser.go in Sql/Parser (expressions, one
--                function for each level of the grammar), Sql/Schema (CREATE, DROP and the statements of
--                ast.go), Sql/Queries (SELECT) and Sql/Statements (the rest, and Parse). Sql/Fuel shows
--                that they end, and Sql/Printing how expressions are written and read back
--   Storage      internal/storage/btree.go: the nodes of a b-tree as pages of bytes
--   Engine       internal/engine/expr.go in Engine/Expr (eval is evaluate), the row building of
--                insert.go and update.go in Engine/Rows, index keys of ddl.go in Engine/Index, scan.go in
--                Engine/Scan, select.go in Engine/Select, execInsert, execUpdate and execDelete in
--                Engine/Writes, engine.go in Engine/Session
--   Wire         internal/server/wire/wire.go: WriteResult, WriteError and ReadResult
--   Tests        the theorems at concrete inputs
--
-- State and operations: a Store is the record of the trees, the log's records since the last
-- checkpoint, the transaction counter, the writes since the checkpoint and the global lock. A method
-- takes the store and the transaction and gives its answer with both as it leaves them. An error of
-- Go is a value of Result. Where Go would panic on an index, the engine's model has an error of its
-- own. A byte slice and a string are lists of numbers; a 64-bit word is a number below 2 ^ 64, with
-- its wrap-around written out; a float64 is its bit pattern.
--
-- Parameters: the checksum crc32.ChecksumIEEE (a number below 2 ^ 32, nothing else is asked of it),
-- the order in which Go ranges over a map (where it goes through one entry at most, it gives that
-- entry), and the arithmetic of float64 with its conversion from int64 (each result is a 64-bit
-- pattern). Comparison of float64 values is defined on the patterns. The lexer takes Go's unicode
-- tables and strings.ToUpper, and the parser strconv.ParseFloat, as functions of which nothing is asked.
-- The engine takes from the storage the catalog's tables, cursors, and the saving of a table's row
-- counter (Catalog.SaveTable), and nothing is asked of them; a session takes the statements of ddl.go,
-- and what they do is left open.
--
-- Parsing: a text is a list of code points, which stand for the runes of the lexer and for the strings of its
-- tokens. A parser takes the tokens that are left and gives a result with those that it leaves; the
-- end of the list is TokEOF, and the positions of tokens, which only error messages use, are left out.
--
-- Sessions: a session owns its store here. Begin gives nothing where the lock is held, which only another
-- session can do.
--
-- Fuel: the scan of the log runs on fuel, the length of the file, where a record takes at least 17
-- bytes. The lexer has one unit more than the text has characters, of which a round reads one at least,
-- and the parser one unit more than there are tokens: every pair of parentheses and every round of a
-- loop reads one at least. The binary search has one unit for each cell of the node.
--
-- The tables that SELECT reads come through a cursor that gives the entries of a target from a key on.
-- ORDER BY is a stable sort by insertion, which agrees with any other wherever the comparison is a
-- strict weak order.
--
-- The trees: a call of a tree, and the saving of a root that it has moved, are operations of an
-- interface on a state of which nothing is known, and nothing is assumed of them. They are called in
-- the order of the code: a write is logged, the tree is changed, a moved root is saved, and only then
-- the undo entry is kept; where a save fails, the tree stays changed without one. What the theorems say
-- of transactions is about the log, the lock, the undo list and which calls are made, for every
-- behaviour of the trees; that the cells of a tree are what they were after Rollback is not among them.
--
-- Not modelled: the file system (a write or a sync never fails, and the log keeps what was written), the page
-- cache, the b-trees above a single node, the statements of ddl.go, several sessions at once, and the sockets
-- of the server. The command-line programs are input and output only.
pub mod Common
pub mod Bytes
pub mod Encoding
pub mod Catalog
pub mod Wal
pub mod Txn
pub mod Storage
pub mod Sql
pub mod Engine
pub mod Wire
pub mod Tests
