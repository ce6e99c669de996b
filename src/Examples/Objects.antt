-- ===== src/Examples/Objects.antt =====
-- A store with one object and a file system with room for one temporary file, and the theorem on the
-- S3 adapter applied to them.
use ematix_probe.Prelude.{
  ◌≡◌, ◌≢◌, refl, sym, ap, ◌∙◌, String, Bool, true, false, ◌&&◌, none, some, List, [], ◌∷◌,
  if◌then◌else◌, string_eq, Bool-cases, inl, inr,
}
use ematix_probe.Data.{Assertion, ProbePlan}
use ematix_probe.Crates.{Result, ok, err}
use ematix_probe.Blocking.{Reply, replied}
use ematix_probe.Sources.Parquet.{ParquetCrate}
use ematix_probe.Sources.S3.{ObjectStore, TempFiles, execute_s3}
use ematix_probe.Sources.S3.Files.{IsFiles}
use ematix_probe.Sources.S3.Tidy.{execute_s3-IsTidy}
use ematix_probe.Examples.Numbers.{Thousandths, thousandths}
use ematix_probe.Examples.Arrow.{ColumnType, Batch, Schema, arrow}
use ematix_probe.Examples.Table.{table, batches}

-- the state tells whether there is the temporary file
abbrev at_temp : String → Bool
at_temp path = string_eq.beq path "/tmp/probe"

abbrev exists : Bool → String → Bool
exists w path = w && at_temp path

abbrev cloud : ObjectStore Bool Unit Unit Unit Unit
cloud = record {
  from_env = tt;
  with_bucket_name = λ bucket builder. tt;
  with_region = λ region builder. tt;
  with_endpoint = λ ep builder. tt;
  with_allow_http = λ allow builder. tt;
  build = λ builder. replied (ok tt);
  object_path = λ key. key;
  get = λ store key w. (replied (ok tt), w);
  bytes = λ response w. (replied (ok tt), w);
}

abbrev new_temp : Bool → Reply (Result String String) × Bool
new_temp false = (replied (ok "/tmp/probe"), true)
new_temp true = (replied (err "disk full"), true)

-- writing fails
abbrev temp : TempFiles Bool Unit Unit
temp = record {
  new = new_temp;
  remove = λ path w. if at_temp path then false else w;
  create = λ path w. (replied (ok tt), w);
  write_all = λ f bytes w. (replied (err "disk full"), w);
  flush = λ f w. (replied (ok tt), w);
  close = λ f w. w;
}

abbrev files : ParquetCrate Bool Unit Unit (List Batch) Schema Batch
files = record {
  open_file = λ path w. (replied (ok tt), w);
  try_new = λ file w. (replied (ok tt), w);
  build = λ builder w. (replied (ok batches), w);
  schema = λ r. table;
  next = λ r. (replied none, r);
}

other-at_temp : (q : String) → q ≢ "/tmp/probe" → at_temp q ≡ false
other-at_temp q other = elim (Bool-cases (at_temp q)) [
  | inl e ↦ absurd (other ((string_eq.beq_iff q "/tmp/probe").0 e))
  | inr e ↦ e
]

and-false : (w : Bool) → (w && false) ≡ false
and-false true = refl
and-false false = refl

new_temp-fresh : (w : Bool) (p : String) → (new_temp w).0 ≡ replied (ok p) → exists w p ≡ false
new_temp-fresh false p e = refl
new_temp-fresh true p e = absurd (fails p e)
  where
    fails :
        (p : String)
        → ◌≡◌ {A = Reply (Result String String)} (replied (err "disk full")) (replied (ok p))
        → ⊥
    fails p e = cc

new_temp-keeps :
    (w : Bool) (q : String) → (new_temp w).0 ≢ replied (ok q) → exists (new_temp w).1 q ≡ exists w q
new_temp-keeps false q other = other-at_temp q (λ e. other (ap (λ p. replied (ok p)) (sym e)))
new_temp-keeps true q other = refl

gone : (b w : Bool) → ((if b then false else w) && b) ≡ false
gone true w = refl
gone false w = and-false w

kept : (b c w : Bool) → (b ≡ true → c ≡ false) → ((if b then false else w) && c) ≡ (w && c)
kept true c w h = sym (ap (λ d. w && d) (h refl) ∙ and-false w)
kept false c w h = refl

cloud-IsFiles : IsFiles exists cloud temp files
cloud-IsFiles = record {
  get-keeps = λ s k w q. refl;
  bytes-keeps = λ r w q. refl;
  new-fresh = new_temp-fresh;
  new-keeps = new_temp-keeps;
  create-keeps = λ p w q other. refl;
  write_all-keeps = λ f b w q. refl;
  flush-keeps = λ f w q. refl;
  close-keeps = λ f w q. refl;
  remove-gone = λ p w. gone (at_temp p) w;
  remove-keeps = λ p w q other.
      kept (at_temp p) (at_temp q) w
        (λ e. other-at_temp q (λ f. other (f ∙ sym ((string_eq.beq_iff p "/tmp/probe").0 e))));
  open_file-keeps = λ p w q. refl;
  try_new-keeps = λ f w q. refl;
  build-keeps = λ b w q. refl;
}

abbrev plan : ProbePlan Thousandths ColumnType
plan = record { schema = none; table = "items"; assertions = Assertion.unique "id" ∷ [] }

execute_s3-IsTidy_example :
    exists
      (execute_s3 arrow cloud temp files 3
        (λ i. some 60)
        plan
        (record { store = tt; key = "items.parquet" })
        false).1
      "/tmp/probe"
    ≡ false
execute_s3-IsTidy_example =
    execute_s3-IsTidy arrow exists cloud temp files cloud-IsFiles 3 (λ i. some 60) plan
      (record { store = tt; key = "items.parquet" }) false "/tmp/probe"
