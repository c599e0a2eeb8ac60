-- ===== src/Otel/Tests.antt =====
-- An SDK whose exporters both start, and one whose metric exporter does not.
use gopher_core.Common.{◌≡◌, refl, inl, inr, some, none, [], ◌∷◌}
use gopher_core.Runtime.{other, sentinel, deadline_exceeded, join_errors}
use gopher_core.Otel.{
  sets_propagator, starts_tracer, sets_tracer, shuts_tracer, Sdk, init_sdk, shutdown,
}
use gopher_core.Otel.Shutdown.{Leaves, init_sdk-Leaves}

abbrev working : Sdk
working = record {
  resource_merge = λ name. inl 1;
  new_trace_exporter = inl 2;
  new_metric_exporter = inl 3;
  shut_tracer = λ t r. some (sentinel deadline_exceeded);
  shut_meter = λ m r. none;
}

abbrev no_metrics : Sdk
no_metrics = record working { new_metric_exporter = inr (other 5) }

init_sdk-Leaves_example : Leaves working (init_sdk working none "orders")
init_sdk-Leaves_example = init_sdk-Leaves working none "orders"

rolled_back :
    init_sdk no_metrics none "orders"
    ≡ (sets_propagator ∷ starts_tracer 2 1 ∷ sets_tracer 2 1 ∷ shuts_tracer 2 1 ∷ [], inr (other 5))
unfolding init_sdk
rolled_back = refl

shutdown_failed :
    (shutdown working (record { trace_exporter = 2; metric_exporter = 3; resource = 1 })).1
    ≡ some (join_errors (sentinel deadline_exceeded) none)
unfolding shutdown
shutdown_failed = refl
