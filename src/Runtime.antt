-- ===== src/Runtime.antt =====
-- What the packages share of Go itself: error values with `errors.Is`, contexts, and what a call of
-- a function passed in can do.
use gopher_core.Common.{ℕ, Bool, true, false, ◌||◌, Option, none, some, List, [], ◌∷◌}

-- The error values that the code compares with, each a distinct pointer.
pub data Sentinel : Type 0 where
  canceled deadline_exceeded : Sentinel
  circuit_open too_many_requests : Sentinel
  max_attempts_reached : Sentinel
  cache_miss : Sentinel
  no_change nil_version : Sentinel
  client_not_initialized : Sentinel
  redis_nil : Sentinel

pub Sentinel-discrete : Discrete Sentinel
Sentinel-discrete = hlevel

-- A non-nil `error`: `wrap` is one with an `Unwrap` method, `join` is `errors.Join`, and `other` is
-- any further error, told apart by its number.
pub data Err : Type 0 where
  sentinel : Sentinel → Err
  other : ℕ → Err
  wrap : ℕ → Err → Err
  join : Err → Err → Err
  -- `PanicError` of async/async.go, with the recovered value
  panic_error : ℕ → Err

abbrev pub same_sentinel : Sentinel → Sentinel → Bool
same_sentinel canceled canceled = true
same_sentinel deadline_exceeded deadline_exceeded = true
same_sentinel circuit_open circuit_open = true
same_sentinel too_many_requests too_many_requests = true
same_sentinel max_attempts_reached max_attempts_reached = true
same_sentinel cache_miss cache_miss = true
same_sentinel no_change no_change = true
same_sentinel nil_version nil_version = true
same_sentinel client_not_initialized client_not_initialized = true
same_sentinel redis_nil redis_nil = true
same_sentinel _ _ = false

-- errors.Is(err, target) for a target that is a sentinel.
unfoldable pub is : Err → Sentinel → Bool
is (sentinel s) t = same_sentinel s t
is (other n) t = false
is (wrap n e) t = is e t
is (panic_error v) t = false
is (join a b) t = is a t || is b t

-- errors.Is on an `error` that may be nil.
abbrev pub is? : Option Err → Sentinel → Bool
is? none t = false
is? (some e) t = is e t

-- A context.Context, by what `Err()` returns at each instant of a monotonic clock.
abbrev pub Ctx : Type 0
Ctx = ℕ → Option Err

abbrev pub background : Ctx
background t = none

-- A call of a function that is passed in returns, or panics with a value.
pub data Outcome {ℓ} (A : Type ℓ) : Type ℓ where
  returned : A → Outcome A
  panicked : ℕ → Outcome A

-- `errors.Join` of two errors, of which the first is not nil.
abbrev pub join_errors : Err → Option Err → Err
join_errors e none = wrap 0 e
join_errors e (some d) = join e d

-- Functional options, which the packages share: `for _, opt := range opts { if opt != nil { opt(&cfg) } }`.
unfoldable pub apply_options {ℓ} : {C : Type ℓ} → List (Option (C → C)) → C → C
apply_options [] cfg = cfg
apply_options (none ∷ opts) cfg = apply_options opts cfg
apply_options (some opt ∷ opts) cfg = apply_options opts (opt cfg)

-- Handlers wrapped one in another, the first outermost, as chi and gRPC compose what they are given
unfoldable pub nest {ℓ} : {H : Type ℓ} → List (H → H) → H → H
nest [] h = h
nest (m ∷ ms) h = m (nest ms h)

-- What is not nil, in order
unfoldable pub keep_some {ℓ} : {A : Type ℓ} → List (Option A) → List A
keep_some [] = []
keep_some (none ∷ xs) = keep_some xs
keep_some (some x ∷ xs) = x ∷ keep_some xs
