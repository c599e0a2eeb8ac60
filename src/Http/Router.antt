-- ===== src/Http/Router.antt =====
-- `NewRouter`, `NewServer` and `GracefulShutdown` of httpkit/router.go.
use gopher_core.Common.{
  Bool, not, ◌&&◌, List, [], ◌∷◌, ◌++◌, String, Option, some, none, if◌then◌else◌,
}
use gopher_core.Common.Int.{ℤ, pos, leb_ℤ, ltb_ℤ}
use gopher_core.Common.Dict.{same_key}
use gopher_core.Runtime.{Err, nest}
use gopher_core.Http.{Handler}
use gopher_core.Http.Settings.{Float, is_positive, to_int, Limiter, RouterConfig, parse_options}
use gopher_core.Http.Layers.{security_headers_middleware, rate_limit_middleware, cors_middleware}

-- The middlewares and the limiter that other packages make
pub record Library (S : Type 0) : Type 0 where
  -- `otelchi.Middleware`, with the path that its filter leaves out
  pub traced : Option String → Handler S → Handler S
  pub request_id : Handler S → Handler S
  pub real_ip : Handler S → Handler S
  pub recoverer : Handler S → Handler S
  pub logger : Handler S → Handler S
  -- `rate.NewLimiter`
  pub new_limiter : Float → ℤ → Limiter S
  -- `promhttp.Handler()`
  pub metrics : Handler S

-- The burst of the limiter that the router makes
unfoldable pub burst_of : Float → ℤ → ℤ
unfolding to_int
burst_of rps burst = if leb_ℤ burst (pos 0) then to_int rps else burst

module _ {S : Type 0} (lib : Library S) where
  -- The limiter that the router uses
  unfoldable pub choose_limiter : RouterConfig S → Option (Limiter S)
  unfolding burst_of
  choose_limiter cfg = elim (cfg.rate_limiter) [
    | some limiter ↦ some limiter
    | none ↦
        if is_positive cfg.rate_limit
        then some (lib.new_limiter cfg.rate_limit (burst_of cfg.rate_limit cfg.rate_burst))
        else none
  ]

  abbrev pub use_limiter : Option (Limiter S) → List (Handler S → Handler S)
  use_limiter none = []
  use_limiter (some limiter) = rate_limit_middleware (some limiter) ∷ []

  abbrev pub use_cors : RouterConfig S → List (Handler S → Handler S)
  use_cors cfg = elim (cfg.allowed_origins) [
    | [] ↦ []
    | o ∷ os ↦ cors_middleware (o ∷ os) cfg.allowed_methods cfg.allowed_headers ∷ []
  ]

  -- What `NewRouter` passes to `r.Use`, in order
  unfoldable pub stack : RouterConfig S → List (Handler S → Handler S)
  unfolding choose_limiter
  stack cfg =
      lib.traced (if same_key cfg.metrics_path "" then none else some cfg.metrics_path)
      ∷ lib.request_id
      ∷ lib.real_ip
      ∷ lib.recoverer
      ∷ ((if cfg.enable_logger then lib.logger ∷ [] else [])
          ++ (security_headers_middleware ∷ (use_limiter (choose_limiter cfg) ++ use_cors cfg)))

  -- The metrics route, before the routes that the application adds
  unfoldable pub routes : RouterConfig S → Handler S → Handler S
  routes cfg app r s =
      if not (same_key cfg.metrics_path "") && same_key r.path cfg.metrics_path
      then lib.metrics r s
      else app r s

  -- `NewRouter`, with the routes that the application adds
  unfoldable pub new_router :
      List (Option (RouterConfig S → RouterConfig S)) → Handler S → Handler S
  unfolding parse_options nest stack routes
  new_router opts app = let cfg = parse_options opts in nest (stack cfg) (routes cfg app)

pub record Server (S : Type 0) : Type 0 where
  pub addr : String
  pub handler : Handler S
  pub read_timeout : ℤ
  pub read_header_timeout : ℤ
  pub write_timeout : ℤ
  pub idle_timeout : ℤ

unfoldable pub new_server :
    {S : Type 0} → String → Handler S → List (Option (RouterConfig S → RouterConfig S)) → Server S
unfolding parse_options
new_server addr handler opts =
    let cfg = parse_options opts in
    record {
      addr = addr;
      handler = handler;
      read_timeout = cfg.read_timeout;
      read_header_timeout = cfg.read_header_timeout;
      write_timeout = cfg.write_timeout;
      idle_timeout = cfg.idle_timeout;
    }

-- What `GracefulShutdown` waits for: the server's own return, or a signal
pub data Ready : Type 0 where
  served : Option Err → Ready
  signalled : Ready

-- `GracefulShutdown`, of a test for `http.ErrServerClosed` and the server's `Shutdown` under a context
-- with a timeout, or without one
unfoldable pub graceful_shutdown : (Err → Bool) → (Option ℤ → Option Err) → ℤ → Ready → Option Err
graceful_shutdown is_closed shutdown timeout (served none) = none
graceful_shutdown is_closed shutdown timeout (served (some e)) =
    if is_closed e then none else some e
graceful_shutdown is_closed shutdown timeout signalled =
    shutdown (if ltb_ℤ (pos 0) timeout then some timeout else none)
