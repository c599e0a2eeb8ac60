-- ===== src/Grpc.antt =====
-- grpckit: interceptors (grpckit/interceptors.go), servers (grpckit/server.go) and clients
-- (grpckit/client.go). gRPC itself, `crypto/tls` and `slog` are parameters.
pub mod Interceptors
pub mod Server
pub mod Client
pub mod Served
mod Tests
use gopher_core.Common.{ℕ, Option, String}
use gopher_core.Runtime.{Err, Outcome}

-- A call runs in a state `S` that it shares with the logs and the clock, and returns a response and an
-- error, or panics. A stream's handler returns an error only.
abbrev pub UnaryHandler : Type 0 → Type 0 → Type 0
UnaryHandler S R = S → Outcome (Option R × Option Err) × S

abbrev pub StreamHandler : Type 0 → Type 0
StreamHandler S = S → Outcome (Option Err) × S

-- An interceptor, by `info.FullMethod`
abbrev pub UnaryInterceptor : Type 0 → Type 0 → Type 0
UnaryInterceptor S R = String → UnaryHandler S R → UnaryHandler S R

abbrev pub StreamInterceptor : Type 0 → Type 0
StreamInterceptor S = String → StreamHandler S → StreamHandler S

-- The lines that the interceptors log
pub data Entry : Type 0 where
  panic_recovered : String → ℕ → Entry
  finished : String → Entry
  finished_with_error : String → Err → Entry

-- What the context, the loggers (by their address) and `status` do
pub record Library (S : Type 0) : Type 0 where
  pub ctx_err : S → Option Err
  pub log : ℕ → Entry → S → S
  -- `status.FromContextError(err).Err()`
  pub from_context_error : Err → Err
  -- `status.Errorf(codes.Internal, "internal server error")`
  pub internal : Err
