-- ===== src/Scan/Order/Picks.antt =====
-- The assertions of engine/scan.rs that count distinct values, or take one by its rank or as the
-- greatest, on batches in another order.
use ematix_probe.Prelude.{
  ℕ, ℤ, ◌<◌, ◌^◌, ◌≡◌, refl, String, Option, some, List, [], ◌∷◌, arith, get_elem?, length, somes,
  length-somes-le, int_eq, string_eq, list_eq,
}
use ematix_probe.Float.{Float, IsIeee, rank}
use ematix_probe.Data.{Assertion}
use ematix_probe.Crates.{Crates}
use ematix_probe.Scan.Acc.{part_eq}
use ematix_probe.Scan.Run.{gather}
use ematix_probe.Scan.Decide.Keyed.{
  Keyed, ValueOf, kind_of, ListsValues, cells_of, cardinality-decides,
}
use ematix_probe.Scan.Decide.Freshness.{freshness-decides}
use ematix_probe.Scan.Sorting.{NoNan}
use ematix_probe.Scan.Decide.Percentile.{percentile-decides}
use ematix_probe.Scan.Order.Ranks.{ranks-alike, bounded_iff}
use ematix_probe.Scan.Order.Items.{
  SameItems, SameItems-length, SameItems-sym, SameItems-somes, All-true, All-SameItems,
  ListsOnce-length, IsMax-SameItems,
}
use ematix_probe.Scan.Order.Rearranged.{Rearranges, Coincide, Coincide-of_iff}

nothing : {A : Type 0} (xs : List A) → length xs ≡ 0 → xs ≡ []
nothing [] e = refl
nothing (x ∷ xs) e = absurd (omega arith)

ListsValues-length :
    (t : Keyed) (xs ys : List (Option (ValueOf t))) (ds es : List (ValueOf t))
    → SameItems xs ys
    → ListsValues t ds (somes xs)
    → ListsValues t es (somes ys)
    → length ds ≡ length es
ListsValues-length Keyed.int64 xs ys ds es h =
    ListsOnce-length (somes xs) (somes ys) ds es (SameItems-somes xs ys h)
ListsValues-length Keyed.utf8 xs ys ds es h =
    ListsOnce-length (somes xs) (somes ys) ds es (SameItems-somes xs ys h)

module _ {F : Type 0} (c : Crates F) ⦃fl : Float F⦄ (clock : ℕ → Option ℕ) (sch : c.Schema)
    (bs cs : List c.RecordBatch) (ieee : IsIeee F) where
  open c use {DataType, RecordBatch, Regex, kind, index_of, field_type, regex_new, num_rows}

  pub freshness-Coincide :
      (i : ℕ) (column : String) (within : ℤ)
      → Rearranges c clock sch bs cs (Assertion.freshness column within)
      → Coincide c clock sch bs cs i (Assertion.freshness column within)
  freshness-Coincide i column within
        (k, unit, positive, found, typed, (xs, ys, read, reread, h, few, fits)) =
      let values = SameItems-somes xs ys h in
      Coincide-of_iff c clock sch bs cs i (Assertion.freshness column within)
        (freshness-decides c (clock i) i column within unit k sch bs xs positive found typed read
          (fits i))
        (freshness-decides c (clock i) i column within unit k sch cs ys positive found typed reread
          (All-SameItems _ (somes xs) (somes ys) values (fits i)))
        (λ (m, max, young). (m, IsMax-SameItems (somes xs) (somes ys) m values max, young))
        (λ (m, max, young). (
          m,
          IsMax-SameItems (somes ys) (somes xs) m (SameItems-sym (somes xs) (somes ys) values) max,
          young,
        ))

  pub cardinality_between-Coincide :
      (i : ℕ) (column : String) (low high : Option ℤ)
      → Rearranges c clock sch bs cs (Assertion.cardinality_between column low high)
      → Coincide c clock sch bs cs i (Assertion.cardinality_between column low high)
  cardinality_between-Coincide i column low high
        (k, t, bounded, found, typed, (xs, ys, read, reread, h, few, _)) =
      cardinality-Coincide t xs ys typed read reread h few
    where
      cardinality-Coincide :
          (t : Keyed) (xs ys : List (Option (ValueOf t)))
          → kind (field_type sch k) ≡ kind_of t
          → gather (cells_of c t k) bs ≡ some xs
          → gather (cells_of c t k) cs ≡ some ys
          → SameItems xs ys
          → length xs < 2 ^ 53
          → Coincide c clock sch bs cs i (Assertion.cardinality_between column low high)
      cardinality-Coincide t xs ys typed read reread h few =
          let size = SameItems-length xs ys h in
          let (ds, r, ds_of, e, d) =
            cardinality-decides c (clock i) i low high sch bs bounded column k found t xs typed read
              (omega arith) in
          let (es, q, es_of, f, d') =
            cardinality-decides c (clock i) i low high sch cs bounded column k found t ys typed
              reread (omega arith) in
          let same : length ds ≡ length es = ListsValues-length t xs ys ds es h ds_of es_of in
          Coincide-of_iff c clock sch bs cs i (Assertion.cardinality_between column low high)
            (r, e, d) (q, f, d') (λ b. rw same at b) (λ b. rw same b)

  pub percentile_between-Coincide :
      (i : ℕ) (column : String) (p low high : F)
      → Rearranges c clock sch bs cs (Assertion.percentile_between column p low high)
      → Coincide c clock sch bs cs i (Assertion.percentile_between column p low high)
  percentile_between-Coincide i column p low high
        (k, finite, unit, found, numeric, (xs, ys, read, reread, h, few, (some_value, numbers))) =
      let values = SameItems-somes xs ys h in
      let size = SameItems-length (somes xs) (somes ys) values in
      let short = length-somes-le xs in
      let other_numbers : NoNan (somes ys) =
        All-true (λ x. fl.le x x) (somes xs) (somes ys) values numbers in
      let (sorted, v, r, arranged, at, e, d) =
        percentile-decides ieee c (clock i) i column p low high k sch bs xs finite unit found
          numeric read some_value numbers (omega arith) in
      let (others, w, q, other_arranged, other_at, f, d') =
        percentile-decides ieee c (clock i) i column p low high k sch cs ys finite unit found
          numeric reread (λ none_left. some_value (nothing (somes xs) (rw none_left at size)))
          other_numbers (omega arith) in
      let here : get_elem? others (rank p (length (somes xs))) ≡ some w = rw size other_at in
      let (up, down) =
        ranks-alike ieee (rank p (length (somes xs))) (somes xs) (somes ys) sorted others v w values
          numbers arranged other_arranged at here in
      let (to, from) = bounded_iff ieee low high v w up down in
      Coincide-of_iff c clock sch bs cs i (Assertion.percentile_between column p low high) (r, e, d)
        (q, f, d') to from
