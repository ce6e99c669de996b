-- ===== src/Postgres/Tables.antt =====
-- A table as rows of cells, and how Postgres counts in it, for the queries of adapters/data/postgres.rs.
use ematix_probe.Prelude.{
  ◌<◌, ◌^◌, ◌≡◌, ◌≢◌, pos, String, Bool, true, false, not, ◌||◌, Option, none, some, List, [], ◌∷◌,
  map, length, count, contains, is_none, All, Eq, string_eq, list_eq,
}
use ematix_probe.Message.{lit, str}
use ematix_probe.Float.{Float}
use ematix_probe.Crates.{ok}
use ematix_probe.Data.{ProbePlan}
use ematix_probe.Scan.Finalize.{join}
use ematix_probe.Postgres.Ident.{quote_ident}
use ematix_probe.Postgres.Pool.{SqlParam, Pool}
use ematix_probe.Postgres.Checks.{placeholders}
use ematix_probe.Postgres.Execute.{table_of}
use ematix_probe.Prelude.Counts.{repeated, option_eq}

-- A table: its columns (of types that GROUP BY takes), those of a type that compares with float8 and those of a text type, its rows
-- and the cell of a row in a column, where `none` is NULL, the value of a cell as a number and as a
-- text, the order of float8 in Postgres (where NaN is the greatest), which texts are
-- patterns, and what `~` matches.
pub record Table (F Row Value : Type 0) : Type 0 where
  pub has : String → Bool
  pub is_number : String → Bool
  pub is_text : String → Bool
  pub rows : List Row
  pub cell : Row → String → Option Value
  pub number : Value → F
  pub text : Value → String
  pub less : F → F → Bool
  pub is_pattern : String → Bool
  pub matches : String → String → Bool

module _ {F Row Value : Type 0} ⦃fl : Float F⦄ (table : Table F Row Value) where
  -- the cell in one column, and in several
  abbrev pub cells : String → List (Option Value)
  cells column = map (λ r. table.cell r column) table.rows

  abbrev pub keys : List String → List (List (Option Value))
  keys columns = map (λ r. map (table.cell r) columns) table.rows

  -- a test of the value of a cell, which NULL does not pass
  abbrev pub passes : (Value → Bool) → Option Value → Bool
  passes p none = false
  passes p (some v) = p v

module _ {F D S Row Value : Type 0} ⦃fl : Float F⦄ ⦃same : Eq Value⦄ (pool : Pool S F)
    (plan : ProbePlan F D) (table : Table F Row Value) where
  -- A database that is reached and holds the table of the plan, and that nobody writes to: what
  -- PostgreSQL documents of `count(*)` over each of the queries. A comparison with NULL is not true,
  -- so such a row is not counted; GROUP BY puts NULLs into one group.
  -- A query is answered if it names columns of the table, of a type it can compare, its pattern is
  -- one, and it has fewer than 2^16 parameters.
  pub record HoldsTable : Type 0 where
    pub got : (s : S) → (pool.get s).0 ≡ ok tt
    pub counts_all :
        (s : S)
        → (pool.query_count (lit "SELECT count(*) FROM " ∷ table_of plan ∷ []) [] s).0
          ≡ ok (pos (length table.rows))
    pub counts_null :
        (column : String) (s : S)
        → table.has column ≡ true
        → (pool.query_count
            (lit "SELECT count(*) FROM "
              ∷ table_of plan
              ∷ lit " WHERE "
              ∷ str (quote_ident column)
              ∷ lit " IS NULL"
              ∷ [])
            []
            s).0
          ≡ ok (pos (count is_none (cells table column)))
    pub counts_repeated :
        (column : String) (s : S)
        → table.has column ≡ true
        → (pool.query_count
            (lit "SELECT count(*) FROM (SELECT "
              ∷ str (quote_ident column)
              ∷ lit " FROM "
              ∷ table_of plan
              ∷ lit " GROUP BY "
              ∷ str (quote_ident column)
              ∷ lit " HAVING count(*) > 1) d"
              ∷ [])
            []
            s).0
          ≡ ok (pos (repeated (cells table column)))
    pub counts_repeated_keys :
        (columns : List String) (s : S)
        → columns ≢ []
        → All (λ c. table.has c ≡ true) columns
        → (pool.query_count
            (lit "SELECT count(*) FROM (SELECT "
              ∷ join (map quote_ident columns) (
                  lit " FROM "
                  ∷ table_of plan
                  ∷ lit " GROUP BY "
                  ∷ join (map quote_ident columns) (lit " HAVING count(*) > 1) d" ∷ [])))
            []
            s).0
          ≡ ok (pos (repeated (keys table columns)))
    pub counts_outside :
        (column : String) (low high : F) (s : S)
        → table.has column ≡ true
        → table.is_number column ≡ true
        → (pool.query_count
            (lit "SELECT count(*) FROM "
              ∷ table_of plan
              ∷ lit " WHERE "
              ∷ str (quote_ident column)
              ∷ lit " < $1::float8 OR "
              ∷ str (quote_ident column)
              ∷ lit " > $2::float8"
              ∷ [])
            (SqlParam.float8 low ∷ SqlParam.float8 high ∷ [])
            s).0
          ≡ ok (
              pos (
                count
                  (passes table
                    (λ v. table.less (table.number v) low || table.less high (table.number v)))
                  (cells table column)))
    pub counts_unmatched :
        (column pattern' : String) (s : S)
        → table.has column ≡ true
        → table.is_text column ≡ true
        → table.is_pattern pattern' ≡ true
        → (pool.query_count
            (lit "SELECT count(*) FROM "
              ∷ table_of plan
              ∷ lit " WHERE "
              ∷ str (quote_ident column)
              ∷ lit " !~ $1"
              ∷ [])
            (SqlParam.text pattern' ∷ [])
            s).0
          ≡ ok (
              pos (
                count
                  (passes table (λ v. not (table.matches pattern' (table.text v))))
                  (cells table column)))
    pub counts_not_in :
        (column : String) (allowed : List String) (s : S)
        → table.has column ≡ true
        → table.is_text column ≡ true
        → allowed ≢ []
        → length allowed < 2 ^ 16
        → (pool.query_count
            (lit "SELECT count(*) FROM "
              ∷ table_of plan
              ∷ lit " WHERE "
              ∷ str (quote_ident column)
              ∷ lit " NOT IN ("
              ∷ placeholders 1 (length allowed) (lit ")" ∷ []))
            (map SqlParam.text allowed)
            s).0
          ≡ ok (
              pos (
                count
                  (passes table (λ v. not (contains allowed (table.text v))))
                  (cells table column)))
