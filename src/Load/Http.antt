-- ===== src/Load/Http.antt =====
-- `HttpLoadAdapter` of adapters/load/http.rs. What it calls of the reqwest crate is a parameter.
pub mod Rates
pub mod Probe
use ematix_probe.Prelude.{ℕ, ◌+◌, ◌*◌, ◌^◌, ◌≡◌, String, Option, none, some, List, [], ◌∷◌, All}
use ematix_probe.Message.{lit, str}
use ematix_probe.Float.{Float}
use ematix_probe.Adapter.{AdapterError, Outcome, returned, raised}
use ematix_probe.Crates.{Result, ok, err}
use ematix_probe.Blocking.{Reply, replied, relay}
use ematix_probe.Load.Plan.{LoadMode, LoadPlan, Sample}
use ematix_probe.Load.Scheduler.{Reading}
use ematix_probe.Load.VuPool.{VuPool, Run, started, Reaches, collected}
use ematix_probe.Load.Tasks.{collect_ticks}

-- `Client::builder().timeout(…).build()`, and `client.get(url).send()` in the task of a tick: how long
-- it took, with the status of the response or the text of the error.
pub record Reqwest (Client : Type 0) : Type 0 where
  pub build : ℕ → Result String Client
  pub send : Client → String → ℕ → Reply (ℕ × Result String ℕ)

-- five seconds
abbrev pub grace : ℕ
grace = 5 * 10 ^ 9

-- the match of `request_to_sample`
unfoldable pub to_sample : ℕ → ℕ × Result String ℕ → Sample
to_sample tick_index (latency, ok status) = record {
  tick_index = tick_index;
  latency = latency;
  status_code = some status;
  error = none;
}
to_sample tick_index (latency, err e) = record {
  tick_index = tick_index;
  latency = latency;
  status_code = none;
  error = some e;
}

module _ {Client : Type 0} (reqwest : Reqwest Client) where
  unfoldable pub request_to_sample : Client → String → ℕ → Reply Sample
  unfolding relay to_sample
  request_to_sample client url tick_index =
      relay (to_sample tick_index) (reqwest.send client url tick_index)

  -- `collect_virtual_users` may return these samples: the pool ran to its end, and each sample is what
  -- the request of its tick came to.
  abbrev pub CollectsUsers : Client → String → ℕ → ℕ → List Sample → Type 0
  CollectsUsers client url count duration all =
      let pool : VuPool = record { count = count; duration = duration } in
      (t : ℕ) × (n : ℕ) × (q : Run) × Reaches (t + duration) n (started pool t) q
      × (collected pool q ≡ some all)
      × All (λ s. request_to_sample client url s.tick_index ≡ replied s) all

  module _ {F : Type 0} ⦃fl : Float F⦄ where
    unfoldable pub collect_constant_rate :
        Client → String → List Reading → F → ℕ → Outcome F (List Sample)
    unfolding collect_ticks request_to_sample
    collect_constant_rate client url readings rps duration =
        collect_ticks (request_to_sample client url) readings rps duration

    -- the match on the mode in `collect_samples`, which may come to this
    abbrev pub CollectsMode :
        Client → LoadPlan F → List Reading → LoadMode F → Outcome F (List Sample) → Type 0
    CollectsMode client plan readings (LoadMode.constant_rate rps) o =
        o ≡ collect_constant_rate client plan.target.url readings rps plan.duration
    CollectsMode client plan readings (LoadMode.virtual_users count) o =
        (all : List Sample) × CollectsUsers client plan.target.url count plan.duration all
        × (o ≡ returned all)

    abbrev pub CollectsClient :
        Result String Client → LoadPlan F → List Reading → Outcome F (List Sample) → Type 0
    CollectsClient (ok client) plan readings o = CollectsMode client plan readings plan.mode o
    CollectsClient (err e) plan readings o =
        o ≡ raised (AdapterError.connection (lit "reqwest client: " ∷ str e ∷ []))

    -- `collect_samples` may come to this, when the clock shows the readings
    abbrev pub Collects : LoadPlan F → List Reading → Outcome F (List Sample) → Type 0
    Collects plan readings o =
        CollectsClient (reqwest.build (plan.duration + grace)) plan readings o
