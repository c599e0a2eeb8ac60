-- ===== src/Http.antt =====
-- httpkit: what its handlers do with a request and a response writer. Handlers and limiters of
-- other packages are parameters.
pub mod Settings
pub mod Layers
pub mod Router
pub mod Response
pub mod Grants
pub mod Refusals
pub mod Shutdown
mod Tests
use gopher_core.Common.{ℕ, Bool, List, [], ◌∷◌, ◌++◌, String, Option, some, none, if◌then◌else◌}
use gopher_core.Common.Dict.{lookup, same_key}

-- What a handler reads of `*http.Request`: `gone` is `r.Context().Err() != nil`, and `headers` the first
-- value of each header.
pub record Request : Type 0 where
  pub gone : Bool
  pub path : String
  pub method : String
  pub headers : List (String × String)

-- The calls on an `http.ResponseWriter`, in order
pub data Write : Type 0 where
  set_header : String → String → Write
  write_header : ℕ → Write
  write : String → Write

-- A handler answers a request and moves the state `S` that handlers share, such as a limiter's.
abbrev pub Handler : Type 0 → Type 0
Handler S = Request → S → List Write × S

-- `r.Header.Get`
unfoldable pub get_header : String → Request → String
unfolding lookup
get_header name r = elim (lookup name r.headers) [ some v ↦ v | none ↦ "" ]

-- The writes of a handler after others
abbrev pub before : {S : Type 0} → List Write → List Write × S → List Write × S
before ws (vs, s) = (ws ++ vs, s)

-- The last value of a header that is set before the status goes out, after value `v`
unfoldable pub sent_header : String → Option String → List Write → Option String
sent_header name v [] = v
sent_header name v (set_header k x ∷ ws) =
    sent_header name (if same_key k name then some x else v) ws
sent_header name v (write_header n ∷ ws) = v
sent_header name v (write b ∷ ws) = v

-- The status that goes out: that of the first `WriteHeader`, and 200 otherwise
unfoldable pub sent_status : List Write → ℕ
sent_status [] = 200
sent_status (set_header k x ∷ ws) = sent_status ws
sent_status (write_header n ∷ ws) = n
sent_status (write b ∷ ws) = 200
