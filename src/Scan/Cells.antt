-- ===== src/Scan/Cells.antt =====
-- The loops of `Acc::update` in engine/scan.rs over the cells of one column, each as a function of
-- the cells and of the variables that the loop changes. A null cell is `none`: the source skips it
-- by `continue`.
use ematix_probe.Prelude.{
  ℕ, zero, suc, ℤ, Bool, not, ◌||◌, Option, none, some, List, [], ◌∷◌, ◌++◌, if◌then◌else◌, add_u64,
  max_ℤ, Eq, HashSet, insert,
}
use ematix_probe.Float.{Float}

-- The cells `i .. i + n` of an array: `value(i)` is read only where `is_null(i)` is false.
unfoldable pub cells_from {ℓ} : {A : Type ℓ} → ℕ → ℕ → (ℕ → Bool) → (ℕ → A) → List (Option A)
cells_from zero i is_null value = []
cells_from (suc n) i is_null value =
    (if is_null i then none else some (value i)) ∷ cells_from n (suc i) is_null value

module _ {ℓ} {A : Type ℓ} ⦃e : Eq A⦄ where
  -- `if !seen.insert(key) { dup_count += 1 }`
  unfoldable pub insert_key : A → HashSet A × ℕ → HashSet A × ℕ
  insert_key key (seen, dup_count) =
      let (seen', fresh) = insert key seen in
      (seen', if not fresh then add_u64 dup_count 1 else dup_count)

  unfoldable pub insert_keys : List A → HashSet A × ℕ → HashSet A × ℕ
  unfolding insert_key
  insert_keys [] state = state
  insert_keys (key ∷ keys) state = insert_keys keys (insert_key key state)

  -- the loop of the `UniqueI64` and `UniqueStr` arms
  unfoldable pub unique_cells : List (Option A) → HashSet A × ℕ → HashSet A × ℕ
  unfolding insert_key
  unique_cells [] state = state
  unique_cells (none ∷ cells) state = unique_cells cells state
  unique_cells (some value ∷ cells) state = unique_cells cells (insert_key value state)

  -- the loop of the `CardinalityI64` and `CardinalityStr` arms
  unfoldable pub cardinality_cells : List (Option A) → HashSet A → HashSet A
  cardinality_cells [] seen = seen
  cardinality_cells (none ∷ cells) seen = cardinality_cells cells seen
  cardinality_cells (some value ∷ cells) seen = cardinality_cells cells (insert value seen).0

-- the loop of the `Regex` and `Enum` arms, over what a value has to satisfy
unfoldable pub miss_cells {ℓ} : {A : Type ℓ} → (A → Bool) → List (Option A) → ℕ → ℕ
miss_cells fits [] miss_count = miss_count
miss_cells fits (none ∷ cells) miss_count = miss_cells fits cells miss_count
miss_cells fits (some value ∷ cells) miss_count =
    miss_cells fits cells (if not (fits value) then add_u64 miss_count 1 else miss_count)

-- the loop of `max_ts`
unfoldable pub max_ts : List (Option ℤ) → Option ℤ → Option ℤ
max_ts [] m = m
max_ts (none ∷ cells) m = max_ts cells m
max_ts (some v ∷ cells) none = max_ts cells (some v)
max_ts (some v ∷ cells) (some cur) = max_ts cells (some (max_ℤ cur v))

-- `if let Some(b) = batch_max { max_value = Some(max_value.map_or(b, |m| m.max(b))) }`
abbrev pub merge_max : Option ℤ → Option ℤ → Option ℤ
merge_max max_value none = max_value
merge_max none (some b) = some b
merge_max (some m) (some b) = some (max_ℤ m b)

-- the loop of `collect_numeric_into`
unfoldable pub collect_cells {ℓ} : {A : Type ℓ} → List (Option A) → List A → List A
collect_cells [] out = out
collect_cells (none ∷ cells) out = collect_cells cells out
collect_cells (some v ∷ cells) out = collect_cells cells (out ++ v ∷ [])

module _ {F : Type 0} ⦃fl : Float F⦄ where
  -- `v < low || v > high`
  abbrev pub is_oob : F → F → F → Bool
  is_oob low high v = fl.lt v low || fl.lt high v

  -- the loop of `count_oob`
  unfoldable pub oob_cells : F → F → List (Option F) → ℕ → ℕ
  oob_cells low high [] n = n
  oob_cells low high (none ∷ cells) n = oob_cells low high cells n
  oob_cells low high (some v ∷ cells) n =
      oob_cells low high cells (if is_oob low high v then add_u64 n 1 else n)
