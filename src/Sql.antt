-- ===== src/Sql.antt =====
-- internal/sqlparser/lexer.go: tokens. A Go string of the source text is the list of its code points.
-- The end of a list of tokens stands for `TokEOF`; positions, which only messages show, are left out.
pub mod Lexer
pub mod Parser
pub mod Schema
pub mod Queries
pub mod Statements
pub mod Fuel
pub mod Printing
use Prim.Native.Char.{code}
use Prim.Native.String.{String}
use eleone_sql.Common.{ℕ, Bool, List, [], ◌∷◌, ◌==◌, Option, none, some, if◌then◌else◌}
use eleone_sql.Bytes.{Bytes, bytes_eq}

-- The code points of a text.
abbrev pub codes : String → Bytes
codes String.[] = []
codes (String.◌∷◌ c s) = code c ∷ codes s

-- The keys of `keywords`.
pub data Keyword : Type 0 where
  kw_select kw_from kw_where kw_insert kw_into kw_values kw_update kw_set kw_delete kw_create :
      Keyword
  kw_table kw_drop kw_index kw_on kw_unique kw_primary kw_key kw_not kw_null kw_and : Keyword
  kw_or kw_order kw_by kw_asc kw_desc kw_limit kw_join kw_inner kw_left kw_begin : Keyword
  kw_commit kw_rollback kw_transaction kw_true kw_false kw_as kw_show kw_tables kw_count : Keyword
  kw_distinct : Keyword

unfoldable pub keyword_text : Keyword → Bytes
keyword_text kw_select = codes "SELECT"
keyword_text kw_from = codes "FROM"
keyword_text kw_where = codes "WHERE"
keyword_text kw_insert = codes "INSERT"
keyword_text kw_into = codes "INTO"
keyword_text kw_values = codes "VALUES"
keyword_text kw_update = codes "UPDATE"
keyword_text kw_set = codes "SET"
keyword_text kw_delete = codes "DELETE"
keyword_text kw_create = codes "CREATE"
keyword_text kw_table = codes "TABLE"
keyword_text kw_drop = codes "DROP"
keyword_text kw_index = codes "INDEX"
keyword_text kw_on = codes "ON"
keyword_text kw_unique = codes "UNIQUE"
keyword_text kw_primary = codes "PRIMARY"
keyword_text kw_key = codes "KEY"
keyword_text kw_not = codes "NOT"
keyword_text kw_null = codes "NULL"
keyword_text kw_and = codes "AND"
keyword_text kw_or = codes "OR"
keyword_text kw_order = codes "ORDER"
keyword_text kw_by = codes "BY"
keyword_text kw_asc = codes "ASC"
keyword_text kw_desc = codes "DESC"
keyword_text kw_limit = codes "LIMIT"
keyword_text kw_join = codes "JOIN"
keyword_text kw_inner = codes "INNER"
keyword_text kw_left = codes "LEFT"
keyword_text kw_begin = codes "BEGIN"
keyword_text kw_commit = codes "COMMIT"
keyword_text kw_rollback = codes "ROLLBACK"
keyword_text kw_transaction = codes "TRANSACTION"
keyword_text kw_true = codes "TRUE"
keyword_text kw_false = codes "FALSE"
keyword_text kw_as = codes "AS"
keyword_text kw_show = codes "SHOW"
keyword_text kw_tables = codes "TABLES"
keyword_text kw_count = codes "COUNT"
keyword_text kw_distinct = codes "DISTINCT"

abbrev pub all_keywords : List Keyword
all_keywords =
    kw_select ∷ kw_from ∷ kw_where ∷ kw_insert ∷ kw_into ∷ kw_values ∷ kw_update ∷ kw_set
    ∷ kw_delete ∷ kw_create ∷ kw_table ∷ kw_drop ∷ kw_index ∷ kw_on ∷ kw_unique ∷ kw_primary
    ∷ kw_key ∷ kw_not ∷ kw_null ∷ kw_and ∷ kw_or ∷ kw_order ∷ kw_by ∷ kw_asc ∷ kw_desc ∷ kw_limit
    ∷ kw_join ∷ kw_inner ∷ kw_left ∷ kw_begin ∷ kw_commit ∷ kw_rollback ∷ kw_transaction ∷ kw_true
    ∷ kw_false ∷ kw_as ∷ kw_show ∷ kw_tables ∷ kw_count ∷ kw_distinct ∷ []

unfoldable pub find_keyword : Bytes → List Keyword → Option Keyword
unfolding keyword_text
find_keyword text [] = none
find_keyword text (k ∷ ks) =
    let rest = find_keyword text ks in if bytes_eq (keyword_text k) text then some k else rest

-- The texts of `TokPunct`.
pub data Punct : Type 0 where
  comma lparen rparen semicolon dot eq eq_eq ne bang_eq bang : Punct
  lt le gt ge plus minus star slash percent : Punct

pub data Token : Type 0 where
  ident number string_text : Bytes → Token
  keyword : Keyword → Token
  punct : Punct → Token

abbrev pub Tokens : Type 0
Tokens = List Token
