-- ===== src/Blocking.antt =====
-- What the adapters use of other crates' calls, of `tokio::task::spawn_blocking` and of
-- `std::sync::Mutex`.
use ematix_probe.Prelude.{String, Bool, true, false, [], ◌∷◌, if◌then◌else◌}
use ematix_probe.Message.{lit, str}
use ematix_probe.Adapter.{AdapterError, Outcome, returned, raised, panicked}
use ematix_probe.Call.{Call}
use ematix_probe.Crates.{Result, ok, err}

-- A call of a crate gives a value, or it panics with a text.
pub data Reply (A : Type 0) : Type 0 where
  replied : A → Reply A
  unwound : String → Reply A

-- a reply with its value changed
unfoldable pub relay : {A B : Type 0} → (A → B) → Reply A → Reply B
relay f (replied a) = replied (f a)
relay f (unwound t) = unwound t

-- A closure on a state, as it runs on the blocking pool.
abbrev pub Closure : Type 0 → Type 0 → Type 0 → Type 0
Closure S F A = S → Reply (Result (AdapterError F) A) × S

-- `std::sync::Mutex` with what it guards
pub record Mutex (C : Type 0) : Type 0 where
  pub poisoned : Bool
  pub inner : C

-- `Mutex::new`
abbrev pub unlocked : {C : Type 0} → C → Mutex C
unlocked c = record { poisoned = false; inner = c }

-- `.map_err(…)` on what a crate answered
unfoldable pub map_err : {E A : Type 0} → (String → E) → Result String A → Result E A
map_err f (ok a) = ok a
map_err f (err e) = err (f e)

module _ {F A : Type 0} where
  -- a call of a crate outside a closure, where a panic is the caller's
  unfoldable pub answer : (String → AdapterError F) → Reply (Result String A) → Outcome F A
  answer f (replied (ok a)) = returned a
  answer f (replied (err e)) = raised (f e)
  answer f (unwound t) = panicked

  -- `spawn_blocking(…).await.map_err(…)?`: a closure that panics is a join error. A blocking task is
  -- never cancelled while the task that awaits it runs.
  unfoldable pub await_blocking : Reply (Result (AdapterError F) A) → Result (AdapterError F) A
  await_blocking (replied r) = r
  await_blocking (unwound t) =
      err (AdapterError.connection (lit "spawn_blocking join: " ∷ str t ∷ []))

  -- the result of a call
  abbrev pub outcome : Result (AdapterError F) A → Outcome F A
  outcome (ok a) = returned a
  outcome (err e) = raised e

module _ {S F A : Type 0} where
  -- a call of a crate in a closure, with the error mapped
  unfoldable pub attempt :
      (String → AdapterError F) → (S → Reply (Result String A) × S) → Closure S F A
  unfolding relay map_err
  attempt f call s = (relay (map_err f) (call s).0, (call s).1)

  -- the same outside a closure
  unfoldable pub request :
      (String → AdapterError F) → (S → Reply (Result String A) × S) → Call S F A
  unfolding answer
  request f call s = (answer f (call s).0, (call s).1)

  -- a call of a crate that has no error
  unfoldable pub infallible : (S → Reply A × S) → Closure S F A
  unfolding relay
  infallible call s = (relay ok (call s).0, (call s).1)

  -- the value of a closure
  abbrev pub finish : A → Closure S F A
  finish a s = (replied (ok a), s)

-- what comes after a closure
unfoldable pub resume :
    {S F A B : Type 0} → (A → Closure S F B) → Reply (Result (AdapterError F) A) → Closure S F B
resume k (replied (ok a)) s = k a s
resume k (replied (err e)) s = (replied (err e), s)
resume k (unwound t) s = (unwound t, s)

-- `?` in a closure
infixl 5 ◌>>=◌
unfoldable pub ◌>>=◌ : {S F A B : Type 0} → Closure S F A → (A → Closure S F B) → Closure S F B
unfolding resume
(m >>= k) s = resume k (m s).0 (m s).1

module _ {C F A : Type 0} where
  -- the mutex once the guard is dropped, which poisons it in a panic
  abbrev pub release : Reply (Result (AdapterError F) A) → C → Mutex C
  release (replied r) c = record { poisoned = false; inner = c }
  release (unwound t) c = record { poisoned = true; inner = c }

  -- a closure that starts with `lock()` and has the guard to its end
  unfoldable pub with_lock : String → Closure C F A → Closure (Mutex C) F A
  with_lock text body m =
      if m.poisoned
      then (replied (err (AdapterError.connection (lit text ∷ []))), m)
      else ((body m.inner).0, release (body m.inner).0 (body m.inner).1)
