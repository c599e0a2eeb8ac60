-- ===== src/Http/Refusals.antt =====
-- What a router of `NewRouter` (httpkit/router.go) does before the application's handlers run.
use native.Mathlib.Nat.{le-div_iff_mul-le, one-le-pow}
use gopher_core.Common.{
  ℕ, ◌≡◌, refl, Bool, true, false, List, [], ◌∷◌, ◌++◌, String, Option, some, ◌≤◌, ◌^◌, ◌/◌, ◌⊎◌,
  inl, inr, ◌↔◌, arith, Bool-cases, ap, ◌∙◌,
}
use gopher_core.Common.Int.{ℤ, pos, IsPositive}
use gopher_core.Common.Dict.{same_key}
use gopher_core.Runtime.{nest}
use gopher_core.Http.{Request, write_header, Handler, before}
use gopher_core.Http.Layers.{
  security_headers, too_many_requests, answer_allowed, security_headers_middleware,
  rate_limit_middleware,
}
use gopher_core.Http.Settings.{Limiter, RouterConfig, parse_options, to_int}
use gopher_core.Http.Router.{
  Library, choose_limiter, burst_of, stack, new_router, use_limiter, use_cors,
}

-- The library's middlewares write nothing of their own.
pub record IsQuiet {S : Type 0} (lib : Library S) : Type 0 where
  pub traced_quiet : (p : Option String) (h : Handler S) → lib.traced p h ≡ h
  pub request_id_quiet : (h : Handler S) → lib.request_id h ≡ h
  pub real_ip_quiet : (h : Handler S) → lib.real_ip h ≡ h
  pub recoverer_quiet : (h : Handler S) → lib.recoverer h ≡ h
  pub logger_quiet : (h : Handler S) → lib.logger h ≡ h

answer_refused :
    {S : Type 0} (next : Handler S) (r : Request) (q : Bool × S)
    → q.0 ≡ false
    → answer_allowed next r q ≡ (too_many_requests, q.1)
answer_refused next r (true, s) h = ground (arith, h)
answer_refused next r (false, s) h = refl

module _ {S : Type 0} where
  secured :
      (next : Handler S) (r : Request) (s : S)
      → r.gone ≡ false
      → security_headers_middleware next r s ≡ before security_headers (next r s)
  unfolding security_headers_middleware
  secured next r s live = simp live

  limited :
      (allow : Limiter S) (next : Handler S) (r : Request) (s : S)
      → r.gone ≡ false
      → same_key r.path "/metrics" ≡ false
      → (allow s).0 ≡ false
      → rate_limit_middleware (some allow) next r s ≡ (too_many_requests, (allow s).1)
  unfolding rate_limit_middleware
  limited allow next r s live path h = simp (live, path, answer_refused next r (allow s) h)

module _ {S : Type 0} (lib : Library S) (quiet : IsQuiet lib) where
  -- Under quiet outer middlewares the stack is the security headers around the rest.
  pub wrap_stack :
      (cfg : RouterConfig S) (h : Handler S)
      → nest (stack lib cfg) h
        ≡ security_headers_middleware
            (nest (use_limiter lib (choose_limiter lib cfg) ++ use_cors lib cfg) h)
  unfolding nest stack
  wrap_stack cfg h = elim (Bool-cases cfg.enable_logger) [
    | inl e ↦ rw (
      e, quiet.traced_quiet, quiet.request_id_quiet, quiet.real_ip_quiet, quiet.recoverer_quiet,
      quiet.logger_quiet,
    )
    | inr e ↦
        rw (
          e, quiet.traced_quiet, quiet.request_id_quiet, quiet.real_ip_quiet, quiet.recoverer_quiet,
        )
  ]

  -- Where the library's middlewares write nothing, a request whose context has ended gets status 499
  -- and nothing else: no handler and no limiter runs, whatever the options.
  pub router_gone :
      (opts : List (Option (RouterConfig S → RouterConfig S))) (app : Handler S) (r : Request)
      (s : S)
      → r.gone ≡ true
      → new_router lib opts app r s ≡ (write_header 499 ∷ [], s)
  unfolding new_router security_headers_middleware
  router_gone opts app r s h = rw (wrap_stack (parse_options opts) _, h)

  -- Where the library's middlewares write nothing, a request in time whose path is not "/metrics", and that
  -- the limiter refuses, gets the security headers and the 429 response; no later handler runs.
  pub router_refuses :
      (opts : List (Option (RouterConfig S → RouterConfig S))) (app : Handler S) (r : Request)
      (s : S) (allow : Limiter S)
      → choose_limiter lib (parse_options opts) ≡ some allow
      → r.gone ≡ false
      → same_key r.path "/metrics" ≡ false
      → (allow s).0 ≡ false
      → new_router lib opts app r s ≡ (security_headers ++ too_many_requests, (allow s).1)
  unfolding new_router nest
  router_refuses opts app r s allow l live path h =
      rw (wrap_stack (parse_options opts) _, l)
        (secured _ r s live ∙ ap (before security_headers) (limited allow _ r s live path h))

div-pos_iff : (n m : ℕ) → 1 ≤ m → (1 ≤ n / m) ↔ (m ≤ n)
div-pos_iff n m h = ground (arith, le-div_iff_mul-le {k = m} {x = 1} {y = n} h)

-- The burst of the limiter that a router makes for a rate is positive exactly if the burst given is
-- positive or the rate is at least 1.
pub burst-IsPositive :
    (n k : ℕ) (burst : ℤ)
    → IsPositive (burst_of (record { numerator = pos n; halvings = k }) burst)
      ↔ (IsPositive burst ⊎ (2 ^ k ≤ n))
unfolding burst_of to_int
burst-IsPositive n k burst = ground (arith, div-pos_iff n (2 ^ k) (one-le-pow k 2 (omega arith)))
