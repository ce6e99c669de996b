-- ===== src/Sources/S3/Files.antt =====
-- What a call leaves of the files that there are.
use ematix_probe.Prelude.{◌≡◌, ◌≢◌, refl, ◌∙◌, String, Bool, false, string_eq}
use ematix_probe.Adapter.{AdapterError, Outcome, returned, raised, panicked, stopped}
use ematix_probe.Call.{Call, ◌>>=◌, after, pure}
use ematix_probe.Crates.{Result, ok, err}
use ematix_probe.Blocking.{
  Reply, replied, unwound, Closure, attempt, request, finish, resume, ◌>>=◌ as ◌and_also◌,
}
use ematix_probe.Sources.Parquet.{ParquetCrate}
use ematix_probe.Sources.S3.{ObjectStore, TempFiles, scoped}

-- What the crates do to the files that there are. `exists w p` tells whether there is a file at `p`.
pub record IsFiles
    {W Builder Store Response Bytes TempFile File ReaderBuilder Reader Schema Batch : Type 0}
    (exists : W → String → Bool) (cloud : ObjectStore W Builder Store Response Bytes)
    (temp : TempFiles W TempFile Bytes)
    (parquet : ParquetCrate W File ReaderBuilder Reader Schema Batch) : Type 0 where
  pub get-keeps :
      (s : Store) (k : String) (w : W) (q : String) → exists (cloud.get s k w).1 q ≡ exists w q
  pub bytes-keeps : (r : Response) (w : W) (q : String) → exists (cloud.bytes r w).1 q ≡ exists w q
  -- a temporary file is a new file, and there is no other new one
  pub new-fresh : (w : W) (p : String) → (temp.new w).0 ≡ replied (ok p) → exists w p ≡ false
  pub new-keeps :
      (w : W) (q : String) → (temp.new w).0 ≢ replied (ok q) → exists (temp.new w).1 q ≡ exists w q
  pub create-keeps :
      (p : String) (w : W) (q : String) → q ≢ p → exists (temp.create p w).1 q ≡ exists w q
  pub write_all-keeps :
      (f : TempFile) (b : Bytes) (w : W) (q : String)
      → exists (temp.write_all f b w).1 q ≡ exists w q
  pub flush-keeps : (f : TempFile) (w : W) (q : String) → exists (temp.flush f w).1 q ≡ exists w q
  pub close-keeps : (f : TempFile) (w : W) (q : String) → exists (temp.close f w) q ≡ exists w q
  pub remove-gone : (p : String) (w : W) → exists (temp.remove p w) p ≡ false
  pub remove-keeps :
      (p : String) (w : W) (q : String) → q ≢ p → exists (temp.remove p w) q ≡ exists w q
  pub open_file-keeps :
      (p : String) (w : W) (q : String) → exists (parquet.open_file p w).1 q ≡ exists w q
  pub try_new-keeps :
      (f : File) (w : W) (q : String) → exists (parquet.try_new f w).1 q ≡ exists w q
  pub build-keeps :
      (b : ReaderBuilder) (w : W) (q : String) → exists (parquet.build b w).1 q ≡ exists w q

module _ {F W : Type 0} (exists : W → String → Bool) (q : String) where
  -- The call leaves it as it is whether there is a file at `q`.
  unfoldable pub Keeps : (A : Type 0) → Call W F A → Type 0
  Keeps A m = (w : W) → exists (m w).1 q ≡ exists w q

  pub after-Keeps :
      (A B : Type 0) (k : A → Call W F B) (o : Outcome F A) (w w' : W)
      → ((a : A) → Keeps B (k a))
      → exists w' q ≡ exists w q
      → exists (after k (o, w')).1 q ≡ exists w q
  unfolding after Keeps
  after-Keeps A B k (returned a) w w' t h = t a w' ∙ h
  after-Keeps A B k (raised e) w w' t h = h
  after-Keeps A B k panicked w w' t h = h
  after-Keeps A B k stopped w w' t h = h

  pub bind-Keeps :
      (A B : Type 0) (m : Call W F A) (k : A → Call W F B)
      → Keeps A m
      → ((a : A) → Keeps B (k a))
      → Keeps B (m >>= k)
  unfolding ◌>>=◌ Keeps
  bind-Keeps A B m k h t w = after-Keeps A B k (m w).0 w (m w).1 t (h w)

  pub request-Keeps :
      (A : Type 0) (f : String → AdapterError F) (call : W → Reply (Result String A) × W)
      → ((w : W) → exists (call w).1 q ≡ exists w q)
      → Keeps A (request f call)
  unfolding request Keeps
  request-Keeps A f call h w = h w

  pub scoped-Keeps :
      (A : Type 0) (drop : W → W) (m : Call W F A)
      → Keeps A m
      → ((w : W) → exists (drop w) q ≡ exists w q)
      → Keeps A (scoped drop m)
  unfolding scoped Keeps
  scoped-Keeps A drop m h d w = d (m w).1 ∙ h w

  -- The same of closures.
  unfoldable pub Leaves : (A : Type 0) → Closure W F A → Type 0
  Leaves A m = (w : W) → exists (m w).1 q ≡ exists w q

  pub resume-Leaves :
      (A B : Type 0) (k : A → Closure W F B) (r : Reply (Result (AdapterError F) A)) (w w' : W)
      → ((a : A) → Leaves B (k a))
      → exists w' q ≡ exists w q
      → exists (resume k r w').1 q ≡ exists w q
  unfolding resume Leaves
  resume-Leaves A B k (replied (ok a)) w w' t h = t a w' ∙ h
  resume-Leaves A B k (replied (err e)) w w' t h = h
  resume-Leaves A B k (unwound t) w w' u h = h

  pub chain-Leaves :
      (A B : Type 0) (m : Closure W F A) (k : A → Closure W F B)
      → Leaves A m
      → ((a : A) → Leaves B (k a))
      → Leaves B (m and_also k)
  unfolding ◌and_also◌ Leaves
  chain-Leaves A B m k h t w = resume-Leaves A B k (m w).0 w (m w).1 t (h w)

  pub attempt-Leaves :
      (A : Type 0) (f : String → AdapterError F) (call : W → Reply (Result String A) × W)
      → ((w : W) → exists (call w).1 q ≡ exists w q)
      → Leaves A (attempt f call)
  unfolding attempt Leaves
  attempt-Leaves A f call h w = h w

module _ (F : Type 0) {W : Type 0} (exists : W → String → Bool) (q : String) where
  pub pure-Keeps : (A : Type 0) (a : A) → Keeps exists q A (pure {F = F} a)
  unfolding Keeps
  pure-Keeps A a w = refl

  pub finish-Leaves : (A : Type 0) (a : A) → Leaves exists q A (finish {F = F} a)
  unfolding Leaves
  finish-Leaves A a w = refl
