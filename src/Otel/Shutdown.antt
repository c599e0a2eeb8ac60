-- ===== src/Otel/Shutdown.antt =====
-- Which providers run after `InitSDK` (otelkit/otelkit.go) and after the function that it returns.
use gopher_core.Common.{
  ℕ, ◌≡◌, refl, ◌⊎◌, inl, inr, Bool, false, Option, none, some, List, [], ◌∷◌, ◌++◌, String, ◌==◌,
  ◌&&◌, if◌then◌else◌, arith,
}
use gopher_core.Runtime.{Err}
use gopher_core.Otel.{
  Effect, sets_propagator, starts_tracer, sets_tracer, shuts_tracer, starts_meter, shuts_meter, Sdk,
  Handle, with_metrics, and_then, with_traces, with_resource, init_sdk, shutdown,
}

pub data Provider : Type 0 where
  tracer meter : (exporter resource : ℕ) → Provider

abbrev same_provider : Provider → Provider → Bool
same_provider (tracer a b) (tracer c d) = a == c && b == d
same_provider (meter a b) (meter c d) = a == c && b == d
same_provider _ _ = false

-- The providers without one that is shut down
abbrev without : Provider → List Provider → List Provider
without p [] = []
without p (q ∷ qs) = if same_provider p q then qs else q ∷ without p qs

-- The providers that run after these effects, of those that ran before
abbrev pub running_from : List Provider → List Effect → List Provider
running_from ps [] = ps
running_from ps (starts_tracer t r ∷ effects) = running_from (tracer t r ∷ ps) effects
running_from ps (starts_meter m r ∷ effects) = running_from (meter m r ∷ ps) effects
running_from ps (shuts_tracer t r ∷ effects) = running_from (without (tracer t r) ps) effects
running_from ps (shuts_meter m r ∷ effects) = running_from (without (meter m r) ps) effects
running_from ps (_ ∷ effects) = running_from ps effects

-- What runs after a call of `InitSDK`: nothing, if it fails, and else the two providers, none of which
-- runs any more after a call of the function that it returns.
abbrev pub Leaves : Sdk → List Effect × (Handle ⊎ Err) → Type 0
Leaves sdk (effects, inr e) = running_from [] effects ≡ []
Leaves sdk (effects, inl h) =
    (running_from [] effects
      ≡ meter h.metric_exporter h.resource ∷ tracer h.trace_exporter h.resource ∷ [])
    × (running_from [] (effects ++ (shutdown sdk h).0) ≡ [])

module _ (sdk : Sdk) where
  with_metrics-Leaves :
      (r t : ℕ) (q : ℕ ⊎ Err)
      → Leaves sdk (
          and_then
            (sets_propagator ∷ [])
            (and_then (starts_tracer t r ∷ sets_tracer t r ∷ []) (with_metrics t r q)))
  unfolding shutdown
  with_metrics-Leaves r t (inr e) = ground arith
  with_metrics-Leaves r t (inl m) = (refl, ground arith)

  with_traces-Leaves :
      (r : ℕ) (q : ℕ ⊎ Err) → Leaves sdk (and_then (sets_propagator ∷ []) (with_traces sdk r q))
  with_traces-Leaves r (inr e) = refl
  with_traces-Leaves r (inl t) = with_metrics-Leaves r t sdk.new_metric_exporter

  with_resource-Leaves : (q : ℕ ⊎ Err) → Leaves sdk (with_resource sdk q)
  with_resource-Leaves (inr e) = refl
  with_resource-Leaves (inl r) = with_traces-Leaves r sdk.new_trace_exporter

  -- After an `InitSDK` that fails, on whatever path, no provider runs. After one that succeeds both the
  -- tracer and the meter run, and neither does any more after a call of the function that it
  -- returned, whatever errors shutting down each of them gives.
  pub init_sdk-Leaves :
      (ctx_err : Option Err) (service_name : String)
      → Leaves sdk (init_sdk sdk ctx_err service_name)
  unfolding init_sdk
  init_sdk-Leaves (some e) service_name = refl
  init_sdk-Leaves none service_name = with_resource-Leaves (sdk.resource_merge service_name)
