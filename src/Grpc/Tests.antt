-- ===== src/Grpc/Tests.antt =====
-- A server whose handler and interceptor panic, and the theorems about it.
use gopher_core.Common.{ℕ, ◌≡◌, refl, Option, none, some, List, [], ◌∷◌}
use gopher_core.Common.Int.{pos}
use gopher_core.Runtime.{other, panicked, keep_some, apply_options}
use gopher_core.Grpc.{UnaryHandler, StreamHandler, UnaryInterceptor, Library, Entry}
use gopher_core.Grpc.Server.{
  insecure, ServerConfig, parse_server_options, new_server, serve_unary, serve_stream,
  with_unary_interceptors,
}
use gopher_core.Grpc.Client.{
  with_dial_timeout, with_raw_dial_options, parse_client_options, dial_options,
  default_client_config, stats_handler, transport_credentials, context_dialer, raw,
}
use gopher_core.Grpc.Served.{
  unary_outcome, inner_unary, serve_unary_outcome, Returns, serve-Returns,
}

-- The state is what is logged.
abbrev lib : Library (List Entry)
lib = record {
  ctx_err = λ s. none;
  log = λ logger entry s. entry ∷ s;
  from_context_error = λ e. e;
  internal = other 13;
}

abbrev crash : UnaryHandler (List Entry) ℕ
crash s = (panicked 7, s)

abbrev crash_stream : StreamHandler (List Entry)
crash_stream s = (panicked 8, s)

abbrev passing : UnaryInterceptor (List Entry) ℕ
passing method handler s = handler s

abbrev opts : List (Option (ServerConfig (List Entry) ℕ → ServerConfig (List Entry) ℕ))
unfolding with_unary_interceptors
opts = some (with_unary_interceptors (none ∷ some passing ∷ [])) ∷ none ∷ []

serve_unary_outcome_example :
    serve_unary (new_server lib 1 opts) "/svc/Get" crash []
    ≡ unary_outcome lib
        (parse_server_options 1 opts).logger
        "/svc/Get"
        (inner_unary lib 1 opts "/svc/Get" crash [])
serve_unary_outcome_example = (serve_unary_outcome lib 1 opts "/svc/Get" crash []).0 refl

serve-Returns_example :
    Returns (serve_unary (new_server lib 1 opts) "/svc/Get" crash [])
    × Returns (serve_stream (new_server lib 1 opts) "/svc/Get" crash_stream [])
serve-Returns_example = serve-Returns lib 1 opts "/svc/Get" crash crash_stream []

dialled :
    dial_options (
      parse_client_options
        (some (with_dial_timeout (pos 0)) ∷ some (with_raw_dial_options (some 4 ∷ none ∷ [])) ∷ []))
    ≡ stats_handler
      ∷ transport_credentials insecure
      ∷ context_dialer (some (pos 10_000_000_000))
      ∷ raw 4
      ∷ []
unfolding dial_options parse_client_options apply_options default_client_config with_dial_timeout
    with_raw_dial_options keep_some
dialled = refl
