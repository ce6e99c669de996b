-- ===== src/Python/Kinds.antt =====
-- Which assertions the Python side can make, in crates/ematix-probe-py/src/lib.rs.
use Prim.Native.String.{◌++◌ as append}
use ematix_probe.Prelude.{
  ℤ, ◌≡◌, ◌≢◌, ◌↔◌, refl, sym, ap, ◌∙◌, String, true, Option, List, contains, string_eq,
}
use ematix_probe.Data.{Assertion}
use ematix_probe.Python.Module.{functions}
use ematix_probe.Python.{
  PyAssertion, kind, assertion_not_null, assertion_unique, assertion_unique_group,
  assertion_between, assertion_freshness, assertion_regex, assertion_enum, assertion_row_count,
}

-- The factory of that name makes the assertion, from some arguments.
pub data IsMade {F D : Type 0} (a : PyAssertion F D) (name : String) : Type 0 where
  not_null : (c : String) → name ≡ "not_null" → a ≡ assertion_not_null F D c → IsMade a name
  unique : (c : String) → name ≡ "unique" → a ≡ assertion_unique F D c → IsMade a name
  unique_group :
      (cs : List String) → name ≡ "unique_group" → a ≡ assertion_unique_group F D cs → IsMade a name
  between :
      (c : String) (low high : F)
      → name ≡ "between"
      → a ≡ assertion_between F D c low high
      → IsMade a name
  freshness :
      (c : String) (within : ℤ)
      → name ≡ "freshness"
      → a ≡ assertion_freshness F D c within
      → IsMade a name
  regex :
      (c pattern' : String) → name ≡ "regex" → a ≡ assertion_regex F D c pattern' → IsMade a name
  enum :
      (c : String) (allowed : List String)
      → name ≡ "enum"
      → a ≡ assertion_enum F D c allowed
      → IsMade a name
  row_count :
      (low high : Option ℤ)
      → name ≡ "row_count"
      → a ≡ assertion_row_count F D low high
      → IsMade a name

module _ {F D : Type 0} where
  kind-IsMade :
      (a : PyAssertion F D) (name : String) → name ≢ "unknown" → kind a ≡ name → IsMade a name
  unfolding kind assertion_not_null assertion_unique assertion_unique_group assertion_between
      assertion_freshness assertion_regex assertion_enum assertion_row_count
  kind-IsMade (Assertion.not_null c) name known e = IsMade.not_null c (sym e) refl
  kind-IsMade (Assertion.unique c) name known e = IsMade.unique c (sym e) refl
  kind-IsMade (Assertion.unique_group cs) name known e = IsMade.unique_group cs (sym e) refl
  kind-IsMade (Assertion.between c low high) name known e = IsMade.between c low high (sym e) refl
  kind-IsMade (Assertion.regex c p) name known e = IsMade.regex c p (sym e) refl
  kind-IsMade (Assertion.enum c allowed) name known e = IsMade.enum c allowed (sym e) refl
  kind-IsMade (Assertion.row_count low high) name known e = IsMade.row_count low high (sym e) refl
  kind-IsMade (Assertion.freshness c within) name known e = IsMade.freshness c within (sym e) refl
  kind-IsMade (Assertion.percentile_between c p low high) name known e = absurd (known (sym e))
  kind-IsMade (Assertion.cardinality_between c low high) name known e = absurd (known (sym e))
  kind-IsMade (Assertion.schema_match fields) name known e = absurd (known (sym e))

  IsMade-kind : (a : PyAssertion F D) (name : String) → IsMade a name → kind a ≡ name
  unfolding kind assertion_not_null assertion_unique assertion_unique_group assertion_between
      assertion_freshness assertion_regex assertion_enum assertion_row_count
  IsMade-kind a name (IsMade.not_null c n e) = ap kind e ∙ sym n
  IsMade-kind a name (IsMade.unique c n e) = ap kind e ∙ sym n
  IsMade-kind a name (IsMade.unique_group cs n e) = ap kind e ∙ sym n
  IsMade-kind a name (IsMade.between c low high n e) = ap kind e ∙ sym n
  IsMade-kind a name (IsMade.freshness c within n e) = ap kind e ∙ sym n
  IsMade-kind a name (IsMade.regex c p n e) = ap kind e ∙ sym n
  IsMade-kind a name (IsMade.enum c allowed n e) = ap kind e ∙ sym n
  IsMade-kind a name (IsMade.row_count low high n e) = ap kind e ∙ sym n

  IsMade-registered :
      (a : PyAssertion F D) (name : String)
      → IsMade a name
      → contains functions (append "assertion_" name) ≡ true
  IsMade-registered a name (IsMade.not_null c n e) = rw n refl
  IsMade-registered a name (IsMade.unique c n e) = rw n refl
  IsMade-registered a name (IsMade.unique_group cs n e) = rw n refl
  IsMade-registered a name (IsMade.between c low high n e) = rw n refl
  IsMade-registered a name (IsMade.freshness c within n e) = rw n refl
  IsMade-registered a name (IsMade.regex c p n e) = rw n refl
  IsMade-registered a name (IsMade.enum c allowed n e) = rw n refl
  IsMade-registered a name (IsMade.row_count low high n e) = rw n refl

  -- For every name but `unknown`, `kind` has that name for an assertion exactly if the Python factory
  -- of that name makes it: the eight factories and the names agree, and all else is `unknown`. Of
  -- such an assertion, `assertion_` and its kind is the name of a function that the module adds.
  pub kind-iff-IsMade :
      (a : PyAssertion F D) (name : String)
      → name ≢ "unknown"
      → ((kind a ≡ name) ↔ IsMade a name)
        × (kind a ≡ name → contains functions (append "assertion_" name) ≡ true)
  kind-iff-IsMade a name known = (
    (kind-IsMade a name known, IsMade-kind a name),
    λ e. IsMade-registered a name (kind-IsMade a name known e),
  )
