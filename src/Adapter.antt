-- ===== src/Adapter.antt =====
-- crates/ematix-probe-core/src/adapters/data.rs, and what a call of the code can come to.
use ematix_probe.Message.{Message}

-- `enum AdapterError`
pub data AdapterError (F : Type 0) : Type 0 where
  connection query config : Message F → AdapterError F

-- What a call of the code comes to. `stopped` is a model's loop that ran out of fuel.
pub data Outcome (F A : Type 0) : Type 0 where
  returned : A → Outcome F A
  raised : AdapterError F → Outcome F A
  panicked : Outcome F A
  stopped : Outcome F A

-- `?` on an outcome
unfoldable pub and_then : {F A B : Type 0} → Outcome F A → (A → Outcome F B) → Outcome F B
and_then (returned a) k = k a
and_then (raised e) k = raised e
and_then panicked k = panicked
and_then stopped k = stopped
