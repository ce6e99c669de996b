-- ===== src/Scan/Build/Columns.antt =====
-- `column_index` of engine/scan.rs and the tests of a column's type.
use ematix_probe.Prelude.{ℕ, String, Bool, true, false, none, some, List, [], ◌∷◌, map, string_eq}
use ematix_probe.Message.{Message, lit, debug_str, debug_strs}
use ematix_probe.Crates.{Result, ok, err, IntType, Kind, Crates}

-- `matches!(dt, Int8 | … | Float64)`
abbrev pub is_supported_numeric : Kind → Bool
is_supported_numeric (Kind.int t) = true
is_supported_numeric Kind.float32 = true
is_supported_numeric Kind.float64 = true
is_supported_numeric _ = false

-- `Int64 | Utf8`
abbrev pub is_key_type : Kind → Bool
is_key_type (Kind.int IntType.int64) = true
is_key_type Kind.utf8 = true
is_key_type _ = false

module _ {F : Type 0} (c : Crates F) where
  open c use {
    DataType, Schema, Regex, kind, type_eq, debug_type, fields, index_of, field_type, regex_new,
  }

  -- the names that an error message lists
  abbrev pub field_names : List (String × DataType) → List String
  field_names = map λ f. f.0

  unfoldable pub column_index : Schema → String → Result (Message F) ℕ
  column_index schema column = elim (index_of schema column) [
    | some i ↦ ok i
    | none ↦ err (
        lit "column "
        ∷ debug_str column
        ∷ lit " not found in scanner schema (available: "
        ∷ debug_strs (field_names (fields schema))
        ∷ lit ")"
        ∷ [])
  ]
