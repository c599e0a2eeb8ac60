-- ===== src/Grpc/Interceptors.antt =====
-- grpckit/interceptors.go.
use gopher_core.Common.{ℕ, Option, none, some, String}
use gopher_core.Runtime.{Err, Outcome, returned, panicked}
use gopher_core.Grpc.{
  UnaryInterceptor, StreamInterceptor, Library, panic_recovered, finished, finished_with_error,
}

-- `if err := ctx.Err(); err != nil { return … }`
abbrev pub unless_ended : {A : Type 0} → Option Err → (Err → A) → A → A
unless_ended none ended live = live
unless_ended (some e) ended live = ended e

module _ {S : Type 0} (lib : Library S) (logger : ℕ) where
  -- The deferred function of `RecoveryUnaryInterceptor`
  abbrev pub recover_unary :
      {R : Type 0}
      → String
      → Outcome (Option R × Option Err) × S
      → Outcome (Option R × Option Err) × S
  recover_unary method (returned r, s) = (returned r, s)
  recover_unary method (panicked v, s) =
      (returned (none, some lib.internal), lib.log logger (panic_recovered method v) s)

  unfoldable pub recovery_unary_interceptor : {R : Type 0} → UnaryInterceptor S R
  recovery_unary_interceptor method handler s =
      unless_ended (lib.ctx_err s) (λ e. (returned (none, some (lib.from_context_error e)), s))
        (recover_unary method (handler s))

  -- The deferred function of `RecoveryStreamInterceptor`
  abbrev pub recover_stream : String → Outcome (Option Err) × S → Outcome (Option Err) × S
  recover_stream method (returned r, s) = (returned r, s)
  recover_stream method (panicked v, s) =
      (returned (some lib.internal), lib.log logger (panic_recovered method v) s)

  unfoldable pub recovery_stream_interceptor : StreamInterceptor S
  recovery_stream_interceptor method handler s =
      unless_ended (lib.ctx_err s) (λ e. (returned (some (lib.from_context_error e)), s))
        (recover_stream method (handler s))

  -- What follows the call of the handler in `LoggingUnaryInterceptor`; a panic goes through it
  abbrev pub log_unary :
      {R : Type 0}
      → String
      → Outcome (Option R × Option Err) × S
      → Outcome (Option R × Option Err) × S
  log_unary method (panicked v, s) = (panicked v, s)
  log_unary method (returned (r, some e), s) =
      (returned (r, some e), lib.log logger (finished_with_error method e) s)
  log_unary method (returned (r, none), s) =
      (returned (r, none), lib.log logger (finished method) s)

  unfoldable pub logging_unary_interceptor : {R : Type 0} → UnaryInterceptor S R
  logging_unary_interceptor method handler s = log_unary method (handler s)

  abbrev pub log_stream : String → Outcome (Option Err) × S → Outcome (Option Err) × S
  log_stream method (panicked v, s) = (panicked v, s)
  log_stream method (returned (some e), s) =
      (returned (some e), lib.log logger (finished_with_error method e) s)
  log_stream method (returned none, s) = (returned none, lib.log logger (finished method) s)

  unfoldable pub logging_stream_interceptor : StreamInterceptor S
  logging_stream_interceptor method handler s = log_stream method (handler s)
