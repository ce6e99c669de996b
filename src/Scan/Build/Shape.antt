-- ===== src/Scan/Build/Shape.antt =====
-- `Acc::build` of engine/scan.rs: the arms on the number of rows and on the schema.
use ematix_probe.Prelude.{
  ℕ, suc, ℤ, pos, String, not, ◌&&◌, Option, none, some, List, [], ◌∷◌, length, is_empty, is_none,
  if◌then◌else◌, eqb, ◌==◌, string_eq,
}
use ematix_probe.Message.{lit, str, debug_str, debug_strs, nat}
use ematix_probe.Data.{Verdict}
use ematix_probe.Crates.{Crates}
use ematix_probe.Scan.Acc.{Acc}
use ematix_probe.Scan.Build.Columns.{field_names}

module _ {F : Type 0} (c : Crates F) where
  open c use {
    DataType, Schema, Regex, kind, type_eq, debug_type, fields, index_of, field_type, regex_new,
  }

  unfoldable pub build_row_count : Option ℤ → Option ℤ → Acc F Regex
  build_row_count low high =
      if is_none low && is_none high
      then Acc.error (
          lit
            "scan-path row_count: at least one of low / high must be set (asserts nothing otherwise)"
          ∷ [])
      else Acc.row_count low high (pos 0)

  -- the loop over the zipped fields of the `SchemaMatch` arm; `i` is its counter
  unfoldable pub match_fields :
      ℕ → List (String × DataType) → List (String × DataType) → Acc F Regex
  match_fields i ((exp_name, exp_type) ∷ exps) ((act_name, act_type) ∷ acts) =
      let rest = match_fields (suc i) exps acts in
      if not (exp_name == act_name)
      then Acc.schema_match Verdict.fail (
          some (
            lit "schema_match: field "
            ∷ nat i
            ∷ lit ": expected name "
            ∷ debug_str exp_name
            ∷ lit ", got "
            ∷ debug_str act_name
            ∷ []))
      else if not (type_eq exp_type act_type)
      then Acc.schema_match Verdict.fail (
          some (
            lit "schema_match: field "
            ∷ debug_str exp_name
            ∷ lit ": expected type "
            ∷ str (debug_type exp_type)
            ∷ lit ", got "
            ∷ str (debug_type act_type)
            ∷ []))
      else rest
  match_fields i _ _ = Acc.schema_match Verdict.pass none

  unfoldable pub build_schema_match : List (String × DataType) → Schema → Acc F Regex
  unfolding match_fields
  build_schema_match expected schema =
      let actual = fields schema in
      if is_empty expected
      then Acc.error (lit "scan-path schema_match: fields list is empty (asserts nothing)" ∷ [])
      else if not (eqb (length actual) (length expected))
      then Acc.schema_match Verdict.fail (
          some (
            lit "schema_match: expected "
            ∷ nat (length expected)
            ∷ lit " field(s), got "
            ∷ nat (length actual)
            ∷ lit " (expected: "
            ∷ debug_strs (field_names c expected)
            ∷ lit ", actual: "
            ∷ debug_strs (field_names c actual)
            ∷ lit ")"
            ∷ []))
      else match_fields 0 expected actual
