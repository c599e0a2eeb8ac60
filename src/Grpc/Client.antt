-- ===== src/Grpc/Client.antt =====
-- grpckit/client.go. Interceptors and dial options of gRPC are known by their addresses.
use gopher_core.Common.{ℕ, ◌*◌, Option, none, some, List, [], ◌∷◌, ◌++◌, map, String, if◌then◌else◌}
use gopher_core.Common.Int.{ℤ, pos, ltb_ℤ}
use gopher_core.Runtime.{apply_options, keep_some}
use gopher_core.Grpc.Server.{Credentials, credentials_of, second}

pub record ClientConfig : Type 0 where
  pub tls_config : Option ℕ
  pub dial_timeout : ℤ
  pub unary_interceptors : List ℕ
  pub stream_interceptors : List ℕ
  pub raw_dial_opts : List ℕ

unfoldable pub default_client_config : ClientConfig
default_client_config = record {
  tls_config = none;
  dial_timeout = pos (10 * second);
  unary_interceptors = [];
  stream_interceptors = [];
  raw_dial_opts = [];
}

unfoldable pub with_insecure : ClientConfig → ClientConfig
with_insecure c = record c { tls_config = none }

unfoldable pub with_client_tls : Option ℕ → ClientConfig → ClientConfig
with_client_tls none c = c
with_client_tls (some config) c = record c { tls_config = some config }

unfoldable pub with_dial_timeout : ℤ → ClientConfig → ClientConfig
with_dial_timeout d c = if ltb_ℤ (pos 0) d then record c { dial_timeout = d } else c

unfoldable pub with_client_unary_interceptors : List (Option ℕ) → ClientConfig → ClientConfig
unfolding keep_some
with_client_unary_interceptors interceptors c = record c {
  unary_interceptors = c.unary_interceptors ++ keep_some interceptors;
}

unfoldable pub with_client_stream_interceptors : List (Option ℕ) → ClientConfig → ClientConfig
unfolding keep_some
with_client_stream_interceptors interceptors c = record c {
  stream_interceptors = c.stream_interceptors ++ keep_some interceptors;
}

unfoldable pub with_raw_dial_options : List (Option ℕ) → ClientConfig → ClientConfig
unfolding keep_some
with_raw_dial_options opts c = record c { raw_dial_opts = c.raw_dial_opts ++ keep_some opts }

unfoldable pub parse_client_options : List (Option (ClientConfig → ClientConfig)) → ClientConfig
unfolding apply_options default_client_config
parse_client_options opts = apply_options opts default_client_config

-- The options that `grpc.NewClient` is given. A dialer has a timeout or none.
pub data DialOption : Type 0 where
  stats_handler : DialOption
  transport_credentials : Credentials → DialOption
  chain_unary chain_stream : List ℕ → DialOption
  context_dialer : Option ℤ → DialOption
  raw : ℕ → DialOption

abbrev pub unless_empty : (List ℕ → DialOption) → List ℕ → List DialOption
unless_empty option [] = []
unless_empty option (i ∷ is) = option (i ∷ is) ∷ []

unfoldable pub dial_options : ClientConfig → List DialOption
dial_options cfg =
    stats_handler
    ∷ transport_credentials (credentials_of cfg.tls_config)
    ∷ (unless_empty chain_unary cfg.unary_interceptors
        ++ (unless_empty chain_stream cfg.stream_interceptors
            ++ (context_dialer
                  (if ltb_ℤ (pos 0) cfg.dial_timeout then some cfg.dial_timeout else none)
                ∷ map raw cfg.raw_dial_opts)))

-- `NewClient`, of what `grpc.NewClient` does with a target and options
unfoldable pub new_client :
    {C : Type 0}
    → (String → List DialOption → C)
    → String
    → List (Option (ClientConfig → ClientConfig))
    → C
unfolding parse_client_options dial_options
new_client connect target opts = connect target (dial_options (parse_client_options opts))
