-- ===== src/Sources/S3/Tidy.antt =====
-- `execute` of adapters/data/s3_parquet.rs leaves no file behind.
use ematix_probe.Prelude.{
  ℕ, ◌≡◌, ◌≢◌, ◌⊎◌, inl, inr, refl, sym, ◌∙◌, String, Bool, Option, string_eq, Bool-cases,
}
use ematix_probe.Float.{Float}
use ematix_probe.Adapter.{AdapterError}
use ematix_probe.Call.{Call, ◌>>=◌, after}
use ematix_probe.Crates.{Result, ok, err, Crates}
use ematix_probe.Blocking.{Reply, replied, unwound, answer, request}
use ematix_probe.Data.{ProbePlan, RunSummary}
use ematix_probe.Sources.Parquet.{ParquetCrate, ParquetAdapter, open_reader}
use ematix_probe.Sources.Parquet.Adapter.{open_parquet, execute_parquet}
use ematix_probe.Sources.S3.{
  ObjectStore, TempFiles, S3ParquetAdapter, scoped, write_temp, scan_temp, execute_s3,
}
use ematix_probe.Sources.S3.Files.{
  IsFiles, Keeps, Leaves, bind-Keeps, request-Keeps, scoped-Keeps, chain-Leaves, attempt-Leaves,
  pure-Keeps, finish-Leaves,
}

String-cases : (s t : String) → (s ≡ t) ⊎ (s ≢ t)
String-cases s t = elim (Bool-cases (string_eq.beq s t)) [
  | inl e ↦ inl ((string_eq.beq_iff s t).0 e)
  | inr e ↦ inr (λ h. let yes_then = (string_eq.beq_iff s t).1 h in cc)
]

module _ {F : Type 0} (c : Crates F) ⦃fl : Float F⦄ where
  open c use {DataType, Schema, RecordBatch}

  module _ {W Builder Store Response Bytes TempFile File ReaderBuilder Reader : Type 0}
      (exists : W → String → Bool) (cloud : ObjectStore W Builder Store Response Bytes)
      (temp : TempFiles W TempFile Bytes)
      (parquet : ParquetCrate W File ReaderBuilder Reader Schema RecordBatch)
      (law : IsFiles exists cloud temp parquet) where
    write_temp-Keeps :
        (path : String) (bytes : Bytes) (q : String)
        → q ≢ path
        → Keeps exists q Unit (write_temp {F = F} temp path bytes)
    unfolding write_temp
    write_temp-Keeps path bytes q other =
        bind-Keeps exists q _ _ _ _
          (request-Keeps exists q _ _ _ (λ w. law.create-keeps path w q other))
          λ f.
            scoped-Keeps exists q _ _ _
              (bind-Keeps exists q _ _ _ _
                (request-Keeps exists q _ _ _ (λ w. law.write_all-keeps f bytes w q))
                λ u. request-Keeps exists q _ _ _ (λ w. law.flush-keeps f w q))
              (λ w. law.close-keeps f w q)

    open_parquet-Keeps :
        (path q : String) → Keeps exists q ParquetAdapter (open_parquet F parquet path)
    unfolding open_parquet
    open_parquet-Keeps path q =
        bind-Keeps exists q _ _ _ _
          (request-Keeps exists q _ _ _ (λ w. law.open_file-keeps path w q))
          λ f.
            bind-Keeps exists q _ _ _ _
              (request-Keeps exists q _ _ _ (λ w. law.try_new-keeps f w q))
              λ b. pure-Keeps F exists q _ _

    open_reader-Leaves :
        (path q : String) → Leaves exists q (Schema × Reader) (open_reader F parquet path)
    unfolding open_reader
    open_reader-Leaves path q =
        chain-Leaves exists q _ _ _ _
          (attempt-Leaves exists q _ _ _ (λ w. law.open_file-keeps path w q))
          λ f.
            chain-Leaves exists q _ _ _ _
              (attempt-Leaves exists q _ _ _ (λ w. law.try_new-keeps f w q))
              λ b.
                chain-Leaves exists q _ _ _ _
                  (attempt-Leaves exists q _ _ _ (λ w. law.build-keeps b w q))
                  λ r. finish-Leaves F exists q _ _

    execute_parquet-Keeps :
        (fuel : ℕ) (clock : ℕ → Option ℕ) (plan : ProbePlan F DataType) (adapter : ParquetAdapter)
        (q : String)
        → Keeps exists q (RunSummary F) (execute_parquet c parquet fuel clock plan adapter)
    unfolding execute_parquet Keeps Leaves
    execute_parquet-Keeps fuel clock plan adapter q = open_reader-Leaves adapter.path q

    scan_temp-Keeps :
        (fuel : ℕ) (clock : ℕ → Option ℕ) (plan : ProbePlan F DataType) (bytes : Bytes)
        (path q : String)
        → q ≢ path
        → Keeps exists q (RunSummary F) (scan_temp c cloud temp parquet fuel clock plan bytes path)
    unfolding scan_temp
    scan_temp-Keeps fuel clock plan bytes path q other =
        bind-Keeps exists q _ _ _ _ (write_temp-Keeps path bytes q other) λ u.
          bind-Keeps exists q _ _ _ _ (open_parquet-Keeps path q)
            λ adapter. execute_parquet-Keeps fuel clock plan adapter q

    -- `execute` from `NamedTempFile::new` on
    abbrev with_temp :
        ℕ → (ℕ → Option ℕ) → ProbePlan F DataType → Bytes → String → Call W F (RunSummary F)
    with_temp fuel clock plan bytes path =
        scoped (temp.remove path) (scan_temp c cloud temp parquet fuel clock plan bytes path)

    removed-Keeps :
        (fuel : ℕ) (clock : ℕ → Option ℕ) (plan : ProbePlan F DataType) (bytes : Bytes)
        (path q : String) (w : W)
        → (temp.new w).0 ≡ replied (ok path)
        → exists (with_temp fuel clock plan bytes path (temp.new w).1).1 q ≡ exists w q
    unfolding scoped Keeps
    removed-Keeps fuel clock plan bytes path q w e = elim (String-cases q path) [
      | inl same ↦ rw same (law.remove-gone path _ ∙ sym (law.new-fresh w path e))
      | inr other ↦
          law.remove-keeps path _ q other
          ∙ scan_temp-Keeps fuel clock plan bytes path q other (temp.new w).1
          ∙ law.new-keeps w q (λ h. other (cc))
    ]

    new-Keeps :
        (fuel : ℕ) (clock : ℕ → Option ℕ) (plan : ProbePlan F DataType) (bytes : Bytes)
        (f : String → AdapterError F) (q : String) (w : W) (r : Reply (Result String String))
        → (temp.new w).0 ≡ r
        → exists (after (with_temp fuel clock plan bytes) (answer f r, (temp.new w).1)).1 q
          ≡ exists w q
    unfolding after answer
    new-Keeps fuel clock plan bytes f q w (replied (ok path)) e =
        removed-Keeps fuel clock plan bytes path q w e
    new-Keeps fuel clock plan bytes f q w (replied (err t)) e = law.new-keeps w q (λ h. cc)
    new-Keeps fuel clock plan bytes f q w (unwound t) e = law.new-keeps w q (λ h. cc)

    request_new-Keeps :
        (fuel : ℕ) (clock : ℕ → Option ℕ) (plan : ProbePlan F DataType) (bytes : Bytes)
        (f : String → AdapterError F) (q : String)
        → Keeps exists q (RunSummary F) (request f temp.new >>= with_temp fuel clock plan bytes)
    unfolding Keeps ◌>>=◌ request
    request_new-Keeps fuel clock plan bytes f q w =
        new-Keeps fuel clock plan bytes f q w (temp.new w).0 refl

    execute_s3-Keeps :
        (fuel : ℕ) (clock : ℕ → Option ℕ) (plan : ProbePlan F DataType)
        (s3 : S3ParquetAdapter Store) (q : String)
        → Keeps exists q (RunSummary F) (execute_s3 c cloud temp parquet fuel clock plan s3)
    unfolding execute_s3
    execute_s3-Keeps fuel clock plan s3 q =
        bind-Keeps exists q _ _ _ _
          (request-Keeps exists q _ _ _ (λ w'. law.get-keeps s3.store s3.key w' q))
          λ response.
            bind-Keeps exists q _ _ _ _
              (request-Keeps exists q _ _ _ (λ w'. law.bytes-keeps response w' q))
              λ bytes. request_new-Keeps fuel clock plan bytes _ q

    -- Where the crates do with files what IsFiles says (a temporary file is new, its drop removes it,
    -- and no other call makes or removes a file at another path), the S3 adapter's `execute` leaves
    -- the files as they are, on every way out: whether it returns, raises or panics at whatever call
    -- of the store, the temporary file or the Parquet reader, there is a file at a path after it
    -- exactly if there was one before.
    pub execute_s3-IsTidy :
        (fuel : ℕ) (clock : ℕ → Option ℕ) (plan : ProbePlan F DataType)
        (s3 : S3ParquetAdapter Store) (w : W) (q : String)
        → exists (execute_s3 c cloud temp parquet fuel clock plan s3 w).1 q ≡ exists w q
    unfolding Keeps
    execute_s3-IsTidy fuel clock plan s3 w q = execute_s3-Keeps fuel clock plan s3 q w
