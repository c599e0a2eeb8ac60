-- ===== src/Grpc/Served.antt =====
-- What a call of a server of grpckit/server.go comes to, through its interceptors.
use gopher_core.Common.{ℕ, ◌≡◌, refl, Option, none, some, List, map, String, Option-cases, inl, inr}
use gopher_core.Runtime.{Err, Outcome, returned, panicked, nest}
use gopher_core.Grpc.{
  UnaryHandler, StreamHandler, UnaryInterceptor, StreamInterceptor, Library, panic_recovered,
  finished, finished_with_error,
}
use gopher_core.Grpc.Interceptors.{
  recovery_unary_interceptor, recovery_stream_interceptor, logging_unary_interceptor,
  logging_stream_interceptor, recover_unary, recover_stream, log_unary, log_stream,
}
use gopher_core.Grpc.Server.{
  ServerConfig, Server, parse_server_options, new_server, serve_unary, serve_stream,
}

module _ {S R : Type 0} (lib : Library S) (logger : ℕ) (method : String) where
  -- The outcome of a call whose context lives: a panic becomes an internal error, all else stays, and
  -- one line is logged of it.
  abbrev pub unary_outcome :
      Outcome (Option R × Option Err) × S → Outcome (Option R × Option Err) × S
  unary_outcome (panicked v, s) =
      (returned (none, some lib.internal), lib.log logger (panic_recovered method v) s)
  unary_outcome (returned (r, some e), s) =
      (returned (r, some e), lib.log logger (finished_with_error method e) s)
  unary_outcome (returned (r, none), s) = (returned (r, none), lib.log logger (finished method) s)

  recover_log_unary :
      (q : Outcome (Option R × Option Err) × S)
      → recover_unary lib logger method (log_unary lib logger method q) ≡ unary_outcome q
  recover_log_unary (panicked v, s) = refl
  recover_log_unary (returned (r, some e), s) = refl
  recover_log_unary (returned (r, none), s) = refl

module _ {S : Type 0} (lib : Library S) (logger : ℕ) (method : String) where
  abbrev pub stream_outcome : Outcome (Option Err) × S → Outcome (Option Err) × S
  stream_outcome (panicked v, s) =
      (returned (some lib.internal), lib.log logger (panic_recovered method v) s)
  stream_outcome (returned (some e), s) =
      (returned (some e), lib.log logger (finished_with_error method e) s)
  stream_outcome (returned none, s) = (returned none, lib.log logger (finished method) s)

  recover_log_stream :
      (q : Outcome (Option Err) × S)
      → recover_stream lib logger method (log_stream lib logger method q) ≡ stream_outcome q
  recover_log_stream (panicked v, s) = refl
  recover_log_stream (returned (some e), s) = refl
  recover_log_stream (returned none, s) = refl

module _ {S R : Type 0} (lib : Library S) (default_logger : ℕ)
    (opts : List (Option (ServerConfig S R → ServerConfig S R))) (method : String) where
  abbrev pub config : ServerConfig S R
  config = parse_server_options default_logger opts

  abbrev pub server : Server S R
  server = new_server lib default_logger opts

  -- The handler within the interceptors of the application
  abbrev pub inner_unary : UnaryHandler S R → UnaryHandler S R
  inner_unary handler =
      nest (map (λ (i : UnaryInterceptor S R). i method) config.unary_interceptors) handler

  abbrev pub inner_stream : StreamHandler S → StreamHandler S
  inner_stream handler =
      nest (map (λ (i : StreamInterceptor S). i method) config.stream_interceptors) handler

  -- While its context lives, a unary call runs the application's interceptors and handler and comes to
  -- their outcome, a panic of any of them as an internal error. One line is logged: that of the logging
  -- interceptor if they return, and that of the recovery interceptor alone if they panic. A call whose
  -- context has ended runs none of them, logs nothing, and gets the status of the context's error.
  pub serve_unary_outcome :
      (handler : UnaryHandler S R) (s : S)
      → (lib.ctx_err s ≡ none
          → serve_unary server method handler s
            ≡ unary_outcome lib config.logger method (inner_unary handler s))
        × ((e : Err)
            → lib.ctx_err s ≡ some e
            → serve_unary server method handler s
              ≡ (returned (none, some (lib.from_context_error e)), s))
  unfolding serve_unary new_server recovery_unary_interceptor logging_unary_interceptor nest
  serve_unary_outcome handler s = (
    (λ live. rw live (recover_log_unary lib config.logger method (inner_unary handler s))),
    (λ e ended. rw ended),
  )

  -- A stream's call whose context lives runs the application's interceptors and handler and comes to
  -- their error, a panic as an internal error, with one line logged; a call whose context has ended
  -- runs none of them and gets the status of the context's error.
  pub serve_stream_outcome :
      (handler : StreamHandler S) (s : S)
      → (lib.ctx_err s ≡ none
          → serve_stream server method handler s
            ≡ stream_outcome lib config.logger method (inner_stream handler s))
        × ((e : Err)
            → lib.ctx_err s ≡ some e
            → serve_stream server method handler s
              ≡ (returned (some (lib.from_context_error e)), s))
  unfolding serve_stream new_server recovery_stream_interceptor logging_stream_interceptor nest
  serve_stream_outcome handler s = (
    (λ live. rw live (recover_log_stream lib config.logger method (inner_stream handler s))),
    (λ e ended. rw ended),
  )

-- The call ends with a return, and not with a panic.
abbrev pub Returns : {A S : Type 0} → Outcome A × S → Type 0
Returns {A} q = (a : A) × (q.0 ≡ returned a)

recover_unary-Returns :
    {S R : Type 0} (lib : Library S) (logger : ℕ) (method : String)
    (q : Outcome (Option R × Option Err) × S)
    → Returns (recover_unary lib logger method q)
recover_unary-Returns lib logger method (returned r, s) = (r, refl)
recover_unary-Returns lib logger method (panicked v, s) = ((none, some lib.internal), refl)

recover_stream-Returns :
    {S : Type 0} (lib : Library S) (logger : ℕ) (method : String) (q : Outcome (Option Err) × S)
    → Returns (recover_stream lib logger method q)
recover_stream-Returns lib logger method (returned r, s) = (r, refl)
recover_stream-Returns lib logger method (panicked v, s) = (some lib.internal, refl)

recovery_unary_interceptor-Returns :
    {S R : Type 0} (lib : Library S) (logger : ℕ) (method : String) (handler : UnaryHandler S R)
    (s : S)
    → Returns (recovery_unary_interceptor lib logger method handler s)
unfolding recovery_unary_interceptor
recovery_unary_interceptor-Returns lib logger method handler s =
    elim (Option-cases (lib.ctx_err s)) [
      | inl live ↦ rw live (recover_unary-Returns lib logger method (handler s))
      | inr (e, ended) ↦ rw ended ((none, some (lib.from_context_error e)), refl)
    ]

recovery_stream_interceptor-Returns :
    {S : Type 0} (lib : Library S) (logger : ℕ) (method : String) (handler : StreamHandler S)
    (s : S)
    → Returns (recovery_stream_interceptor lib logger method handler s)
unfolding recovery_stream_interceptor
recovery_stream_interceptor-Returns lib logger method handler s =
    elim (Option-cases (lib.ctx_err s)) [
      | inl live ↦ rw live (recover_stream-Returns lib logger method (handler s))
      | inr (e, ended) ↦ rw ended (some (lib.from_context_error e), refl)
    ]

-- No call of a server panics, unary or stream, whatever the options, the handlers and the interceptors
-- of the application.
pub serve-Returns :
    {S R : Type 0} (lib : Library S) (default_logger : ℕ)
    (opts : List (Option (ServerConfig S R → ServerConfig S R))) (method : String)
    (handler : UnaryHandler S R) (stream : StreamHandler S) (s : S)
    → Returns (serve_unary (new_server lib default_logger opts) method handler s)
      × Returns (serve_stream (new_server lib default_logger opts) method stream s)
unfolding serve_unary serve_stream new_server nest
serve-Returns lib default_logger opts method handler stream s = (
  recovery_unary_interceptor-Returns lib (parse_server_options default_logger opts).logger method _
      s,
  recovery_stream_interceptor-Returns lib (parse_server_options default_logger opts).logger method _
      s,
)
