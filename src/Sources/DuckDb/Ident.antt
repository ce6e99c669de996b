-- ===== src/Sources/DuckDb/Ident.antt =====
-- `quote_ident` and `qualified_table` of adapters/data/duckdb.rs, which has its own copy of those of
-- adapters/data/postgres.rs.
use Prim.Native.String.{◌++◌ as append}
use ematix_probe.Prelude.{String, Option, none, some}
use ematix_probe.Postgres.Ident.{escape}

unfoldable pub quote_ident : String → String
unfolding escape
quote_ident s = append "\"" (append (escape s) "\"")

unfoldable pub qualified_table : Option String → String → String
unfolding quote_ident
qualified_table (some s) table = append (quote_ident s) (append "." (quote_ident table))
qualified_table none table = quote_ident table
