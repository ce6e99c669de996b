-- ===== src/Postgres/Ident.antt =====
-- `quote_ident` and `qualified_table` of adapters/data/postgres.rs.
use Prim.Native.Char.{Char, code}
use Prim.Native.String.{◌++◌ as append}
use ematix_probe.Prelude.{String, Bool, Option, none, some, eqb, if◌then◌else◌}

-- the character `"`
abbrev pub is_quote : Char → Bool
is_quote c = eqb (code c) 34

-- `s.replace('"', "\"\"")`
unfoldable pub escape : String → String
escape String.[] = ""
escape (String.◌∷◌ c s) =
    if is_quote c then String.◌∷◌ c (String.◌∷◌ c (escape s)) else String.◌∷◌ c (escape s)

unfoldable pub quote_ident : String → String
unfolding escape
quote_ident s = append "\"" (append (escape s) "\"")

unfoldable pub qualified_table : Option String → String → String
unfolding quote_ident
qualified_table (some s) table = append (quote_ident s) (append "." (quote_ident table))
qualified_table none table = quote_ident table
