-- ===== src/Postgres/Reading.antt =====
-- How SQL reads a quoted identifier, against `quote_ident` and `qualified_table` of
-- adapters/data/postgres.rs.
use Prim.Native.Char.{Char, char, code}
use Prim.Native.String.{◌++◌ as append}
use text.Mathlib.TextLemmas.{append_assoc, nil-append, cons-append}
use ematix_probe.Prelude.{
  ℕ, String, ◌≡◌, refl, ap, ◌∙◌, Bool, true, false, not, Option, none, some, arith, Bool-cases, inl,
  inr, eqb, if◌then◌else◌,
}
use ematix_probe.Postgres.Ident.{is_quote, escape, quote_ident, qualified_table}
use ematix_probe.Sources.DuckDb.Ident as DuckDb

abbrev push : Char → Option (String × String) → Option (String × String)
push c none = none
push c (some (s, rest)) = some (String.◌∷◌ c s, rest)

-- How SQL reads an identifier after its opening quote, up to the quote that is not doubled: the
-- name and the text that follows. The flag tells that the character before was a quote.
unfoldable pub read_from : Bool → String → Option (String × String)
read_from false String.[] = none
read_from false (String.◌∷◌ c s) = elim (is_quote c) [
  | true ↦ read_from true s
  | false ↦ push c (read_from false s)
]
read_from true String.[] = some ("", "")
read_from true (String.◌∷◌ c s) = elim (is_quote c) [
  | true ↦ push c (read_from false s)
  | false ↦ some ("", String.◌∷◌ c s)
]

unfoldable pub read_ident : String → Option (String × String)
unfolding read_from
read_ident String.[] = none
read_ident (String.◌∷◌ c s) = elim (is_quote c) [ true ↦ read_from false s | false ↦ none ]

-- The text does not start with the character.
abbrev pub starts_without : ℕ → String → Bool
starts_without k String.[] = true
starts_without k (String.◌∷◌ c s) = not (eqb (code c) k)

read_from-closed :
    (rest : String) → starts_without 34 rest ≡ true → read_from true rest ≡ some ("", rest)
unfolding read_from
read_from-closed String.[] h = refl
read_from-closed (String.◌∷◌ c s) h =
    let other : is_quote c ≡ false = ground arith in rw (other, read_from) refl

-- the character that the quoting adds
abbrev mark : Char
mark = char 34 tt

mark-append : (rest : String) → append "\"" rest ≡ String.◌∷◌ mark rest
mark-append rest = cons-append mark String.[] rest ∙ ap (String.◌∷◌ mark) (nil-append rest)

-- the two ways that a character is escaped, before some text
escape-quote :
    (c : Char) (s rest : String)
    → is_quote c ≡ true
    → append (escape (String.◌∷◌ c s)) rest ≡ String.◌∷◌ c (String.◌∷◌ c (append (escape s) rest))
unfolding escape
escape-quote c s rest h =
    ap
      (λ b.
        append (if b then String.◌∷◌ c (String.◌∷◌ c (escape s)) else String.◌∷◌ c (escape s)) rest)
      h
    ∙ cons-append c (String.◌∷◌ c (escape s)) rest
    ∙ ap (String.◌∷◌ c) (cons-append c (escape s) rest)

escape-other :
    (c : Char) (s rest : String)
    → is_quote c ≡ false
    → append (escape (String.◌∷◌ c s)) rest ≡ String.◌∷◌ c (append (escape s) rest)
unfolding escape
escape-other c s rest h =
    ap
      (λ b.
        append (if b then String.◌∷◌ c (String.◌∷◌ c (escape s)) else String.◌∷◌ c (escape s)) rest)
      h
    ∙ cons-append c (escape s) rest

read_from-quotes :
    (c : Char) (t : String)
    → is_quote c ≡ true
    → read_from false (String.◌∷◌ c (String.◌∷◌ c t)) ≡ push c (read_from false t)
unfolding read_from
read_from-quotes c t h =
    let second : read_from true (String.◌∷◌ c t) ≡ push c (read_from false t) =
      ap {B = Option (String × String)}
        (λ b. elim b [ true ↦ push c (read_from false t) | false ↦ some ("", String.◌∷◌ c t) ]) h in
    ap {B = Option (String × String)}
      (λ b. elim b [
        | true ↦ read_from true (String.◌∷◌ c t)
        | false ↦ push c (read_from false (String.◌∷◌ c t))
      ])
      h
    ∙ second

read_from-escape :
    (s rest : String)
    → starts_without 34 rest ≡ true
    → read_from false (append (escape s) (append "\"" rest)) ≡ some (s, rest)
unfolding read_from escape
read_from-escape String.[] rest h =
    ap (read_from false) (nil-append (append "\"" rest) ∙ mark-append rest)
    ∙ read_from-closed rest h
read_from-escape (String.◌∷◌ c s) rest h = elim (Bool-cases (is_quote c)) [
  | inl quote ↦
      ap (read_from false) (escape-quote c s (append "\"" rest) quote)
      ∙ read_from-quotes c (append (escape s) (append "\"" rest)) quote
      ∙ ap (push c) (read_from-escape s rest h)
  | inr other ↦
      rw (escape-other c s (append "\"" rest) other, other, read_from)
        (ap (push c) (read_from-escape s rest h))
]

quote_ident-append :
    (s rest : String)
    → append (quote_ident s) rest ≡ String.◌∷◌ mark (append (escape s) (append "\"" rest))
unfolding quote_ident
quote_ident-append s rest =
    append_assoc "\"" (append (escape s) "\"") rest
    ∙ mark-append (append (append (escape s) "\"") rest)
    ∙ ap (String.◌∷◌ mark) (append_assoc (escape s) "\"" rest)

-- A quoted identifier, before text that does not start with a quote, is read as the name that was
-- quoted and exactly that text, whatever characters the name has: no name ends its own quotes.
pub read_ident-quote_ident :
    (s rest : String)
    → starts_without 34 rest ≡ true
    → read_ident (append (quote_ident s) rest) ≡ some (s, rest)
unfolding read_ident
read_ident-quote_ident s rest h =
    ap read_ident (quote_ident-append s rest) ∙ read_from-escape s rest h

-- How SQL reads a table name that may have a schema before it.
unfoldable pub after_name : String → String → Option ((Option String × String) × String)
after_name name String.[] = some ((none, name), "")
after_name name (String.◌∷◌ c s) = elim (eqb (code c) 46) [
  | true ↦ elim (read_ident s) [
    | none ↦ none
    | some (table, rest) ↦ some ((some name, table), rest)
  ]
  | false ↦ some ((none, name), String.◌∷◌ c s)
]

unfoldable pub read_table : String → Option ((Option String × String) × String)
unfolding after_name
read_table s = elim (read_ident s) [ none ↦ none | some (name, rest) ↦ after_name name rest ]

after_name-alone :
    (name rest : String)
    → starts_without 46 rest ≡ true
    → after_name name rest ≡ some ((none, name), rest)
unfolding after_name
after_name-alone name String.[] h = refl
after_name-alone name (String.◌∷◌ c s) h =
    let other : eqb (code c) 46 ≡ false = ground arith in rw (other, after_name) refl

-- the character `.`
abbrev dot : Char
dot = char 46 tt

read_table-after :
    (s name rest : String) → read_ident s ≡ some (name, rest) → read_table s ≡ after_name name rest
unfolding read_table
read_table-after s name rest e = rw (e, read_table) refl

after_name-dot :
    (schema table s rest : String)
    → read_ident s ≡ some (table, rest)
    → after_name schema (String.◌∷◌ dot s) ≡ some ((some schema, table), rest)
unfolding after_name
after_name-dot schema table s rest e = rw (e, after_name) refl

read_table-qualified :
    (schema : Option String) (table rest : String)
    → starts_without 34 rest ≡ true
    → starts_without 46 rest ≡ true
    → read_table (append (qualified_table schema table) rest) ≡ some ((schema, table), rest)
unfolding qualified_table
read_table-qualified none table rest h k =
    read_table-after (append (quote_ident table) rest) table rest
      (read_ident-quote_ident table rest h)
    ∙ after_name-alone table rest k
read_table-qualified (some schema) table rest h k =
    let after : String = append (quote_ident table) rest in
    let whole : append (append (quote_ident schema) (append "." (quote_ident table))) rest
        ≡ append (quote_ident schema) (String.◌∷◌ dot after) =
      append_assoc (quote_ident schema) (append "." (quote_ident table)) rest
      ∙ ap (append (quote_ident schema)) (
          append_assoc "." (quote_ident table) rest
          ∙ cons-append dot String.[] after
          ∙ ap (String.◌∷◌ dot) (nil-append after)) in
    ap read_table whole
    ∙ read_table-after (append (quote_ident schema) (String.◌∷◌ dot after)) schema
        (String.◌∷◌ dot after) (read_ident-quote_ident schema (String.◌∷◌ dot after) refl)
    ∙ after_name-dot schema table after rest (read_ident-quote_ident table rest h)

same_qualified_table :
    (schema : Option String) (table : String)
    → DuckDb.qualified_table schema table ≡ qualified_table schema table
unfolding DuckDb.qualified_table qualified_table DuckDb.quote_ident quote_ident
same_qualified_table none table = refl
same_qualified_table (some schema) table = refl

-- A qualified table name of the Postgres adapter or of the DuckDB adapter, before text that starts
-- with neither a quote nor a dot, is read as the schema, if there is one, and the table that it was
-- built from, and exactly that text.
pub read_table-qualified_table :
    (schema : Option String) (table rest : String)
    → starts_without 34 rest ≡ true
    → starts_without 46 rest ≡ true
    → (read_table (append (qualified_table schema table) rest) ≡ some ((schema, table), rest))
      × (read_table (append (DuckDb.qualified_table schema table) rest)
          ≡ some ((schema, table), rest))
read_table-qualified_table schema table rest h k =
    let read = read_table-qualified schema table rest h k in
    (read, rw (same_qualified_table schema table) read)
