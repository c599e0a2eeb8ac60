-- ===== src/Otel.antt =====
-- otelkit/otelkit.go: `InitSDK`, by the OpenTelemetry providers that it starts and shuts down. What the
-- resource and the exporters come to is a parameter.
pub mod Shutdown
mod Tests
use gopher_core.Common.{ℕ, ◌⊎◌, inl, inr, Option, none, some, List, [], ◌∷◌, ◌++◌, String}
use gopher_core.Runtime.{Err, join_errors}

-- What the process does to OpenTelemetry; a provider is known by its exporter and its resource.
pub data Effect : Type 0 where
  sets_propagator : Effect
  starts_tracer sets_tracer shuts_tracer : (exporter resource : ℕ) → Effect
  starts_meter sets_meter shuts_meter : (exporter resource : ℕ) → Effect

-- The package's variables, which tests replace, and the providers' own `Shutdown`
pub record Sdk : Type 0 where
  pub resource_merge : (service_name : String) → ℕ ⊎ Err
  pub new_trace_exporter : ℕ ⊎ Err
  pub new_metric_exporter : ℕ ⊎ Err
  pub shut_tracer : (exporter resource : ℕ) → Option Err
  pub shut_meter : (exporter resource : ℕ) → Option Err

-- The function that `InitSDK` returns, by the providers that it shuts down
pub record Handle : Type 0 where
  pub trace_exporter : ℕ
  pub metric_exporter : ℕ
  pub resource : ℕ

-- `errors.Join` of two errors that may be nil
abbrev pub join_both : Option Err → Option Err → Option Err
join_both none none = none
join_both none (some d) = some (join_errors d none)
join_both (some e) d = some (join_errors e d)

-- With the metric exporter: when there is none, the tracer that runs by then is shut down.
abbrev pub with_metrics : (trace_exporter resource : ℕ) → ℕ ⊎ Err → List Effect × (Handle ⊎ Err)
with_metrics t r (inr e) = (shuts_tracer t r ∷ [], inr e)
with_metrics t r (inl m) = (
  starts_meter m r ∷ sets_meter m r ∷ [],
  inl (record { trace_exporter = t; metric_exporter = m; resource = r }),
)

abbrev pub and_then : List Effect → List Effect × (Handle ⊎ Err) → List Effect × (Handle ⊎ Err)
and_then done (effects, result) = (done ++ effects, result)

module _ (sdk : Sdk) where
  abbrev pub with_traces : (resource : ℕ) → ℕ ⊎ Err → List Effect × (Handle ⊎ Err)
  with_traces r (inr e) = ([], inr e)
  with_traces r (inl t) =
      and_then (starts_tracer t r ∷ sets_tracer t r ∷ []) (with_metrics t r sdk.new_metric_exporter)

  abbrev pub with_resource : ℕ ⊎ Err → List Effect × (Handle ⊎ Err)
  with_resource (inr e) = ([], inr e)
  with_resource (inl r) = and_then (sets_propagator ∷ []) (with_traces r sdk.new_trace_exporter)

  -- `InitSDK`, with what `ctx.Err()` returns
  unfoldable pub init_sdk : Option Err → String → List Effect × (Handle ⊎ Err)
  init_sdk (some e) service_name = ([], inr e)
  init_sdk none service_name = with_resource (sdk.resource_merge service_name)

  -- A call of the function that it returns
  unfoldable pub shutdown : Handle → List Effect × Option Err
  shutdown h = (
    shuts_tracer h.trace_exporter h.resource ∷ shuts_meter h.metric_exporter h.resource ∷ [],
    join_both (sdk.shut_tracer h.trace_exporter h.resource)
        (sdk.shut_meter h.metric_exporter h.resource),
  )
