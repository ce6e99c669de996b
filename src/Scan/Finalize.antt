-- ===== src/Scan/Finalize.antt =====
-- `Acc::finalize` of engine/scan.rs and its helpers. `none` is a panic, of an index out of
-- range or of a sort.
mod Verdicts
unfoldable pub use Verdicts.*
use ematix_probe.Prelude.{
  if◌then◌else◌, ℕ, String, Bool, not, ◌&&◌, any, Option, none, some, List, [], ◌∷◌, length,
  get_elem?, as_i64,
}
use ematix_probe.Prelude.Sort.{sort_by}
use ematix_probe.Message.{Piece, lit, str, debug_str, nat, float, fixed}
use ematix_probe.Float.{Float, rank}
use ematix_probe.Data.{AssertionResult}
use ematix_probe.Scan.Acc.{Acc}

module _ {F : Type 0} ⦃fl : Float F⦄ where
  -- `partial_cmp(..).unwrap_or(Equal)` is `Less`
  abbrev pub float_less : F → F → Bool
  float_less a b = fl.lt a b

  -- the test of the `PercentileBetween` arm, on the value at the rank
  unfoldable pub judge_percentile : ℕ → String → F → F → F → F → AssertionResult F
  unfolding pass fail
  judge_percentile assertion_index column p low high v =
      if fl.le low v && fl.le v high
      then pass assertion_index
      else fail assertion_index (
          lit "column "
          ∷ debug_str column
          ∷ lit ": P"
          ∷ fixed 0 (fl.mul p (fl.decimal 100 0))
          ∷ lit " = "
          ∷ float v
          ∷ lit " is outside ["
          ∷ float low
          ∷ lit ", "
          ∷ float high
          ∷ lit "]"
          ∷ [])

  -- `values.sort_by(..)` of the `PercentileBetween` arm. The comparison is a total order unless a
  -- value is a NaN, which is not `<=` itself; then `sort_by` may panic.
  unfoldable pub sort_floats : List F → Option (List F)
  sort_floats values =
      if any (λ x. not (fl.le x x)) values
      then fl.sort_with_nan values
      else some (sort_by float_less values)

  -- the `PercentileBetween` arm
  unfoldable pub finalize_percentile : ℕ → String → F → F → F → List F → Option (AssertionResult F)
  unfolding sort_floats
  finalize_percentile assertion_index column p low high [] = some (
      error_result assertion_index (
        lit "column "
        ∷ debug_str column
        ∷ lit ": no non-NULL values; cannot evaluate percentile"
        ∷ []))
  finalize_percentile assertion_index column p low high (x ∷ xs) = elim (sort_floats (x ∷ xs)) [
    | none ↦ none
    | some values ↦ elim (get_elem? values (rank p (length values))) [
      | none ↦ none
      | some v ↦ some (judge_percentile assertion_index column p low high v)
    ]
  ]

  -- `columns.join(", ")`
  unfoldable pub join : List String → List (Piece F) → List (Piece F)
  join [] rest = rest
  join (s ∷ []) rest = str s ∷ rest
  join (s ∷ t ∷ ss) rest = str s ∷ lit ", " ∷ join (t ∷ ss) rest

  module _ {R : Type 0} where
    unfoldable pub finalize : Option ℕ → Acc F R → ℕ → Option (AssertionResult F)
    unfolding finalize_count finalize_row_count finalize_cardinality finalize_freshness
        finalize_percentile join
    finalize clock (Acc.not_null column _ null_count) i = some (
        finalize_count i null_count (
          lit "column "
          ∷ debug_str column
          ∷ lit " has "
          ∷ nat null_count
          ∷ lit " NULL row(s); expected 0"
          ∷ []))
    finalize clock (Acc.unique_i64 column _ seen dup_count) i = some (
        finalize_count i dup_count (
          lit "column "
          ∷ debug_str column
          ∷ lit " has "
          ∷ nat dup_count
          ∷ lit " value(s) appearing more than once"
          ∷ []))
    finalize clock (Acc.unique_str column _ seen dup_count) i = some (
        finalize_count i dup_count (
          lit "column "
          ∷ debug_str column
          ∷ lit " has "
          ∷ nat dup_count
          ∷ lit " value(s) appearing more than once"
          ∷ []))
    finalize clock (Acc.unique_composite columns _ seen dup_count) i = some (
        finalize_count i dup_count (
          lit "composite key ("
          ∷ join columns (lit ") has " ∷ nat dup_count ∷ lit " duplicated combination(s)" ∷ [])))
    finalize clock (Acc.between column _ low high oob_count) i = some (
        finalize_count i oob_count (
          lit "column "
          ∷ debug_str column
          ∷ lit " has "
          ∷ nat oob_count
          ∷ lit " row(s) outside ["
          ∷ float low
          ∷ lit ", "
          ∷ float high
          ∷ lit "]"
          ∷ []))
    finalize clock (Acc.regex column _ re pattern' miss_count) i = some (
        finalize_count i miss_count (
          lit "column "
          ∷ debug_str column
          ∷ lit " has "
          ∷ nat miss_count
          ∷ lit " row(s) not matching pattern "
          ∷ debug_str pattern'
          ∷ []))
    finalize clock (Acc.enum column _ allowed allowed_len miss_count) i = some (
        finalize_count i miss_count (
          lit "column "
          ∷ debug_str column
          ∷ lit " has "
          ∷ nat miss_count
          ∷ lit " row(s) outside allowed set ("
          ∷ nat allowed_len
          ∷ lit " value(s))"
          ∷ []))
    finalize clock (Acc.row_count low high count) i = some (finalize_row_count i low high count)
    finalize clock (Acc.schema_match verdict message) i =
        some (record { assertion_index = i; verdict = verdict; message = message })
    finalize clock (Acc.cardinality_i64 column _ low high seen) i =
        some (finalize_cardinality i column low high (as_i64 (length seen)))
    finalize clock (Acc.cardinality_str column _ low high seen) i =
        some (finalize_cardinality i column low high (as_i64 (length seen)))
    finalize clock (Acc.percentile_between column _ p low high values) i =
        finalize_percentile i column p low high values
    finalize clock (Acc.freshness column _ unit within_seconds max_value) i =
        some (finalize_freshness clock i column unit within_seconds max_value)
    finalize clock (Acc.error message) i = some (error_result i message)
