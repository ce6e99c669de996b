-- ===== src/Load/Http/Rates.antt =====
-- `collect_samples` of adapters/load/http.rs at a constant rate.
use ematix_probe.Prelude.{
  ℕ, zero, suc, ◌+◌, ◌≤◌, ◌<◌, ◌≡◌, refl, ap, ◌∙◌, String, not, List, [], ◌∷◌, length, u64_mod,
  is_none, All,
}
use ematix_probe.Message.{lit, str}
use ematix_probe.Float.{Float}
use ematix_probe.Adapter.{AdapterError, Outcome, returned, raised}
use ematix_probe.Crates.{Result, ok, err}
use ematix_probe.Blocking.{replied, unwound, relay}
use ematix_probe.Load.Plan.{LoadMode, LoadPlan, Sample}
use ematix_probe.Load.Scheduler.{Reading}
use ematix_probe.Load.Schedule.{IsDue, IsOver}
use ematix_probe.Load.Tasks.Ascending.{from_to}
use ematix_probe.Load.Tasks.Collected.{collect_ticks-from_to, collect_ticks-unwound}
use ematix_probe.Load.Http.{
  Reqwest, grace, to_sample, request_to_sample, collect_constant_rate, Collects, CollectsMode,
}

-- A sample has a status or an error, and not both.
abbrev pub IsExclusive : Sample → Type 0
IsExclusive s = is_none s.status_code ≡ not (is_none s.error)

pub to_sample-tick_index :
    (i : ℕ) (reply : ℕ × Result String ℕ) → (to_sample i reply).tick_index ≡ i
unfolding to_sample
to_sample-tick_index i (latency, ok status) = refl
to_sample-tick_index i (latency, err e) = refl

to_sample-IsExclusive : (i : ℕ) (reply : ℕ × Result String ℕ) → IsExclusive (to_sample i reply)
unfolding to_sample
to_sample-IsExclusive i (latency, ok status) = refl
to_sample-IsExclusive i (latency, err e) = refl

-- the samples of the ticks `i .. i + n`, by what their requests came to
abbrev pub samples_of : (ℕ → ℕ × Result String ℕ) → ℕ → ℕ → List Sample
samples_of reply i n = from_to i n (λ j. to_sample j (reply j))

samples_of-IsExclusive :
    (reply : ℕ → ℕ × Result String ℕ) (i n : ℕ) → All IsExclusive (samples_of reply i n)
samples_of-IsExclusive reply i zero = tt
samples_of-IsExclusive reply i (suc n) =
    (to_sample-IsExclusive i (reply i), samples_of-IsExclusive reply (suc i) n)

module _ {F Client : Type 0} ⦃fl : Float F⦄ (reqwest : Reqwest Client) (client : Client)
    (plan : LoadPlan F) (rps : F) (built : reqwest.build (plan.duration + grace) ≡ ok client)
    (open_model : plan.mode ≡ LoadMode.constant_rate rps) where
  Collects-rate :
      (readings : List Reading) (o : Outcome F (List Sample))
      → Collects reqwest plan readings o
      → o ≡ collect_constant_rate reqwest client plan.target.url readings rps plan.duration
  Collects-rate readings o h =
      let in_mode : CollectsMode reqwest client plan readings plan.mode o = rw built at h in
      rw open_model at in_mode

  module _ (n : ℕ) (r : Reading) (readings : List Reading)
      (due : (j : ℕ) → j < n → IsDue rps plan.duration j) (over : IsOver rps plan.duration n)
      (more : n ≤ length readings) (few : n < u64_mod) (reply : ℕ → ℕ × Result String ℕ)
      (o : Outcome F (List Sample)) (collects : Collects reqwest plan (r ∷ readings) o) where
    pub Collects-one_each :
        ((j : ℕ) → j < n → reqwest.send client plan.target.url j ≡ replied (reply j))
        → (o ≡ returned (samples_of reply 0 n)) × All IsExclusive (samples_of reply 0 n)
    unfolding collect_constant_rate request_to_sample relay
    Collects-one_each done = (
      Collects-rate (r ∷ readings) o collects
          ∙ collect_ticks-from_to rps plan.duration
              (request_to_sample reqwest client plan.target.url) n r readings due over more few
              (λ j. to_sample j (reply j)) (λ j. to_sample-tick_index j (reply j))
              (λ j h. ap (relay (to_sample j)) (done j h)),
      samples_of-IsExclusive reply 0 n,
    )

    -- Of a plan at a constant rate, whose client is built, where the first `n` ticks are due before
    -- the run ends and tick `n` is not: if the request of some tick panics, the first being tick
    -- `k`, then `collect_samples` raises the join error of that tick, and the samples of all other
    -- ticks are lost. There are fewer than 2^64 ticks, and the clock is read more than `n` times.
    pub Collects-unwound :
        (k : ℕ) (t : String)
        → k < n
        → ((j : ℕ) → j < k → reqwest.send client plan.target.url j ≡ replied (reply j))
        → reqwest.send client plan.target.url k ≡ unwound t
        → o ≡ raised (AdapterError.connection (lit "join: " ∷ str t ∷ []))
    unfolding collect_constant_rate request_to_sample relay
    Collects-unwound k t below done lost =
        Collects-rate (r ∷ readings) o collects
        ∙ collect_ticks-unwound rps plan.duration (request_to_sample reqwest client plan.target.url)
            n r readings due over more few (λ j. to_sample j (reply j))
            (λ j. to_sample-tick_index j (reply j)) k t below
            (λ j h. ap (relay (to_sample j)) (done j h)) (ap (relay (to_sample k)) lost)
