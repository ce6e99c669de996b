-- ===== src/Call.antt =====
-- Calls on a state that may raise, panic or stop, and the `?` operator between them.
use ematix_probe.Adapter.{AdapterError, Outcome, returned, raised, panicked, stopped}

abbrev pub Call : Type 0 → Type 0 → Type 0 → Type 0
Call S F A = S → Outcome F A × S

-- what comes after a call
unfoldable pub after : {S F A B : Type 0} → (A → Call S F B) → Outcome F A × S → Outcome F B × S
after k (returned a, s) = k a s
after k (raised e, s) = (raised e, s)
after k (panicked, s) = (panicked, s)
after k (stopped, s) = (stopped, s)

-- `?`: what raises is passed on
infixl 5 ◌>>=◌
unfoldable pub ◌>>=◌ : {S F A B : Type 0} → Call S F A → (A → Call S F B) → Call S F B
unfolding after
(m >>= k) s = after k (m s)

abbrev pub raise : {S F A : Type 0} → AdapterError F → Call S F A
raise e s = (raised e, s)

abbrev pub pure : {S F A : Type 0} → A → Call S F A
pure a s = (returned a, s)

-- a call that leaves the state alone
abbrev pub stateless : {S F A : Type 0} → Outcome F A → Call S F A
stateless o s = (o, s)
