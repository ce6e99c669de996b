-- ===== src/Sources/Parquet/Pulls.antt =====
-- What the scanner of adapters/data/parquet.rs delivers.
use ematix_probe.Prelude.{
  ℕ, zero, suc, ◌+◌, ◌≡◌, ◌⊎◌, inl, inr, refl, ◌∙◌, ap, String, Option, none, some, List, [], ◌∷◌,
  length, arith,
}
use ematix_probe.Message.{lit, str}
use ematix_probe.Adapter.{AdapterError}
use ematix_probe.Crates.{Result, ok, err}
use ematix_probe.Blocking.{
  replied, unwound, unlocked, relay, map_err, attempt, await_blocking, with_lock, resume, ◌>>=◌,
}
use ematix_probe.Scan.Total.{Delivers, Raises}
use ematix_probe.Sources.Parquet.{
  ParquetCrate, ParquetScanner, pull, next_batch, parquet_scanner, open_reader,
}

module _ {W File Builder Reader Schema Batch : Type 0}
    (parquet : ParquetCrate W File Builder Reader Schema Batch) where
  -- The reader gives these batches and then ends.
  abbrev pub Yields : Reader → List Batch → Type 0
  Yields r [] = (parquet.next r).0 ≡ replied none
  Yields r (b ∷ bs) = ((parquet.next r).0 ≡ replied (some (ok b))) × Yields (parquet.next r).1 bs

  -- The reader gives these batches and then an error, or it panics, with the text.
  abbrev pub Breaks : String ⊎ String → Reader → List Batch → Type 0
  Breaks (inl e) r [] = (parquet.next r).0 ≡ replied (some (err e))
  Breaks (inr t) r [] = (parquet.next r).0 ≡ unwound t
  Breaks why r (b ∷ bs) =
      ((parquet.next r).0 ≡ replied (some (ok b))) × Breaks why (parquet.next r).1 bs

  -- The file at the path is opened as this reader.
  pub record Opens (path : String) (w : W) (r : Reader) : Type 0 where
    pub file : File
    pub builder : Builder
    pub is_opened : (parquet.open_file path w).0 ≡ replied (ok file)
    pub is_parquet : (parquet.try_new file (parquet.open_file path w).1).0 ≡ replied (ok builder)
    pub is_built :
        (parquet.build builder (parquet.try_new file (parquet.open_file path w).1).1).0
        ≡ replied (ok r)

-- the error that a broken stream comes to
abbrev pub broken : {F : Type 0} → String ⊎ String → AdapterError F
broken (inl e) = AdapterError.query (lit "parquet read: " ∷ str e ∷ [])
broken (inr t) = AdapterError.connection (lit "spawn_blocking join: " ∷ str t ∷ [])

module _ {Reader Schema : Type 0} where
  -- the scanner that `execute` makes, and the one that has ended
  abbrev pub streamed : Schema → Reader → ParquetScanner Reader Schema
  streamed sch r = record { schema = sch; reader = unlocked (some r) }

  abbrev pub ended : Schema → ParquetScanner Reader Schema
  ended sch = record { schema = sch; reader = unlocked none }

module _ (F : Type 0) {W File Builder Reader Schema Batch : Type 0}
    (parquet : ParquetCrate W File Builder Reader Schema Batch) where
  -- the scanner after some pulls
  abbrev pub pulls : ℕ → ParquetScanner Reader Schema → ParquetScanner Reader Schema
  pulls zero s = s
  pulls (suc n) s = pulls n (next_batch F parquet s).1

  next_batch-some :
      (sch : Schema) (r : Reader) (b : Batch)
      → (parquet.next r).0 ≡ replied (some (ok b))
      → next_batch F parquet (streamed sch r) ≡ (ok (some b), streamed sch (parquet.next r).1)
  unfolding next_batch pull with_lock await_blocking
  next_batch-some sch r b e = rw (e, next_batch, with_lock, pull, await_blocking) refl

  next_batch-none :
      (sch : Schema) (r : Reader)
      → (parquet.next r).0 ≡ replied none
      → next_batch F parquet (streamed sch r) ≡ (ok none, ended sch)
  unfolding next_batch pull with_lock await_blocking
  next_batch-none sch r e = rw (e, next_batch, with_lock, pull, await_blocking) refl

  pub next_batch-Delivers :
      (sch : Schema) (r : Reader) (bs : List Batch)
      → Yields parquet r bs
      → Delivers (parquet_scanner F parquet) (streamed sch r) bs
  next_batch-Delivers sch r [] y = rw (next_batch-none sch r y) refl
  next_batch-Delivers sch r (b ∷ bs) (e, y) =
      rw (next_batch-some sch r b e) (refl, next_batch-Delivers sch (parquet.next r).1 bs y)

  next_batch-broken :
      (sch : Schema) (why : String ⊎ String) (r : Reader)
      → Breaks parquet why r []
      → (next_batch F parquet (streamed sch r)).0 ≡ err (broken why)
  unfolding next_batch pull with_lock await_blocking
  next_batch-broken sch (inl e) r y = rw (y, next_batch, with_lock, pull, await_blocking) refl
  next_batch-broken sch (inr t) r y = rw (y, next_batch, with_lock, pull, await_blocking) refl

  pub next_batch-Raises :
      (sch : Schema) (why : String ⊎ String) (r : Reader) (bs : List Batch)
      → Breaks parquet why r bs
      → Raises (parquet_scanner F parquet) (broken why) (streamed sch r) bs
  next_batch-Raises sch why r [] y = next_batch-broken sch why r y
  next_batch-Raises sch (inl e) r (b ∷ bs) (same, y) =
      rw (next_batch-some sch r b same)
        (refl, next_batch-Raises sch (inl e) (parquet.next r).1 bs y)
  next_batch-Raises sch (inr t) r (b ∷ bs) (same, y) =
      rw (next_batch-some sch r b same)
        (refl, next_batch-Raises sch (inr t) (parquet.next r).1 bs y)

  pulls-ended : (sch : Schema) (k : ℕ) → pulls k (ended sch) ≡ ended sch
  unfolding next_batch pull with_lock await_blocking
  pulls-ended sch zero = refl
  pulls-ended sch (suc k) = pulls-ended sch k

  next_batch-ended : (sch : Schema) → next_batch F parquet (ended sch) ≡ (ok none, ended sch)
  unfolding next_batch pull with_lock await_blocking
  next_batch-ended sch = refl

  pulls-Yields :
      (sch : Schema) (r : Reader) (bs : List Batch) (k : ℕ)
      → Yields parquet r bs
      → pulls (suc (length bs + k)) (streamed sch r) ≡ ended sch
  pulls-Yields sch r [] k y =
      ap
        (λ (p : Result (AdapterError F) (Option Batch) × ParquetScanner Reader Schema).
          pulls (0 + k) p.1)
        (next_batch-none sch r y)
      ∙ pulls-ended sch (0 + k)
  pulls-Yields sch r (b ∷ bs) k (e, y) =
      let next : suc (length bs) + k ≡ suc (length bs + k) = omega arith in
      ap
        (λ (p : Result (AdapterError F) (Option Batch) × ParquetScanner Reader Schema).
          pulls (suc (length bs) + k) p.1)
        (next_batch-some sch r b e)
      ∙ rw next (pulls-Yields sch (parquet.next r).1 bs k y)

  -- Over a reader that gives some batches and then ends, the scanner delivers these batches in
  -- order and then the end, and the end is for good: however often it is pulled after that, its
  -- reader is gone and it answers with the end.
  pub next_batch-fused :
      (sch : Schema) (r : Reader) (bs : List Batch)
      → Yields parquet r bs
      → Delivers (parquet_scanner F parquet) (streamed sch r) bs
        × ((k : ℕ)
            → (pulls (suc (length bs + k)) (streamed sch r) ≡ ended sch)
              × (next_batch F parquet (pulls (suc (length bs + k)) (streamed sch r))
                  ≡ (ok none, ended sch)))
  next_batch-fused sch r bs y = (
    next_batch-Delivers sch r bs y,
    λ k.
        let at_end = pulls-Yields sch r bs k y in
        (at_end, ap (next_batch F parquet) at_end ∙ next_batch-ended sch),
  )

  pub open_reader-Opens :
      (path : String) (w : W) (r : Reader)
      → Opens parquet path w r
      → (open_reader F parquet path w).0 ≡ replied (ok (parquet.schema r, r))
  unfolding open_reader attempt relay map_err ◌>>=◌ resume
  open_reader-Opens path w r h =
      rw (h.is_opened, open_reader, attempt, ◌>>=◌, resume, map_err)
        (rw (h.is_parquet, ◌>>=◌, resume, attempt, map_err)
          (rw (h.is_built, ◌>>=◌, resume, attempt, map_err) refl))
