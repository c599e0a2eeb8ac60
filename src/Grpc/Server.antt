-- ===== src/Grpc/Server.antt =====
-- grpckit/server.go.
use gopher_core.Common.{ℕ, ◌*◌, Option, none, some, List, [], ◌∷◌, ◌++◌, map, String}
use gopher_core.Common.Int.{ℤ, pos}
use gopher_core.Runtime.{apply_options, nest, keep_some}
use gopher_core.Grpc.{UnaryHandler, StreamHandler, UnaryInterceptor, StreamInterceptor, Library}
use gopher_core.Grpc.Interceptors.{
  recovery_unary_interceptor, recovery_stream_interceptor, logging_unary_interceptor,
  logging_stream_interceptor,
}

-- The settings. A `*tls.Config` and a `*slog.Logger` are known by their addresses.
pub record ServerConfig (S R : Type 0) : Type 0 where
  pub addr : String
  pub tls_config : Option ℕ
  pub logger : ℕ
  pub unary_interceptors : List (UnaryInterceptor S R)
  pub stream_interceptors : List (StreamInterceptor S)
  pub dial_timeout : ℤ

abbrev pub second : ℕ
second = 1_000_000_000

pub data Credentials : Type 0 where
  tls : ℕ → Credentials
  insecure : Credentials

abbrev pub credentials_of : Option ℕ → Credentials
credentials_of none = insecure
credentials_of (some config) = tls config

-- What `grpc.NewServer` is given
pub record Server (S R : Type 0) : Type 0 where
  pub unary_chain : List (UnaryInterceptor S R)
  pub stream_chain : List (StreamInterceptor S)
  pub credentials : Credentials

module _ {S R : Type 0} where
  -- `slog.Default()` is a parameter
  unfoldable pub default_server_config : ℕ → ServerConfig S R
  default_server_config default_logger = record {
    addr = ":50051";
    tls_config = none;
    logger = default_logger;
    unary_interceptors = [];
    stream_interceptors = [];
    dial_timeout = pos (10 * second);
  }

  unfoldable pub with_server_address : String → ServerConfig S R → ServerConfig S R
  with_server_address addr c = record c { addr = addr }

  unfoldable pub with_server_tls : Option ℕ → ServerConfig S R → ServerConfig S R
  with_server_tls none c = c
  with_server_tls (some config) c = record c { tls_config = some config }

  unfoldable pub with_server_logger : Option ℕ → ServerConfig S R → ServerConfig S R
  with_server_logger none c = c
  with_server_logger (some logger) c = record c { logger = logger }

  unfoldable pub with_unary_interceptors :
      List (Option (UnaryInterceptor S R)) → ServerConfig S R → ServerConfig S R
  unfolding keep_some
  with_unary_interceptors interceptors c = record c {
    unary_interceptors = c.unary_interceptors ++ keep_some interceptors;
  }

  unfoldable pub with_stream_interceptors :
      List (Option (StreamInterceptor S)) → ServerConfig S R → ServerConfig S R
  unfolding keep_some
  with_stream_interceptors interceptors c = record c {
    stream_interceptors = c.stream_interceptors ++ keep_some interceptors;
  }

  unfoldable pub parse_server_options :
      ℕ → List (Option (ServerConfig S R → ServerConfig S R)) → ServerConfig S R
  unfolding apply_options default_server_config
  parse_server_options default_logger opts =
      apply_options opts (default_server_config default_logger)

  unfoldable pub new_server :
      Library S → ℕ → List (Option (ServerConfig S R → ServerConfig S R)) → Server S R
  unfolding parse_server_options
  new_server lib default_logger opts =
      let cfg : ServerConfig S R = parse_server_options default_logger opts in
      record {
        unary_chain =
            recovery_unary_interceptor lib cfg.logger
            ∷ logging_unary_interceptor lib cfg.logger
            ∷ cfg.unary_interceptors;
        stream_chain =
            recovery_stream_interceptor lib cfg.logger
            ∷ logging_stream_interceptor lib cfg.logger
            ∷ cfg.stream_interceptors;
        credentials = credentials_of cfg.tls_config;
      }

  -- A call of a method through the chain, of which gRPC makes the first the outermost
  unfoldable pub serve_unary : Server S R → String → UnaryHandler S R → UnaryHandler S R
  unfolding nest
  serve_unary server method handler =
      nest (map (λ (i : UnaryInterceptor S R). i method) server.unary_chain) handler

  unfoldable pub serve_stream : Server S R → String → StreamHandler S → StreamHandler S
  unfolding nest
  serve_stream server method handler =
      nest (map (λ (i : StreamInterceptor S). i method) server.stream_chain) handler
