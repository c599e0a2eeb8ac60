-- ===== src/Async/Queue/Tests.antt =====
-- A job queue of which one handler panics, and which gets another handler after its start.
use gopher_core.Common.{ℕ, ◌≡◌, refl, inl, inr, none, some, List, [], ◌∷◌, ◌++◌, String}
use gopher_core.Runtime.{returned, panicked, panic_error, sentinel, client_not_initialized}
use gopher_core.Async.Group.{recovered}
use gopher_core.Async.Queue.{
  Handler, Asynq, recover_handler, new_queue_server, handle_func, AsynqClient, enqueue,
  close_client,
}
use gopher_core.Async.Queue.Registered.{
  Call, handles, starts, stops, call, calls, CalmMux, served_mux,
}

-- The mux is the list of its handlers; the state is a number of tasks.
abbrev asynq : Asynq (List (String × Handler ℕ ℕ)) ℕ ℕ
asynq = record {
  new_mux = [];
  register = λ pattern handler mux. returned ((pattern, handler) ∷ mux);
  start = λ mux s. (s, none);
  shutdown = λ s. 0;
}

abbrev crash : Handler ℕ ℕ
crash task s = (panicked task, s)

abbrev early : List (Call ℕ ℕ)
early = handles "mail" crash ∷ []

abbrev late : List (Call ℕ ℕ)
late = handles "report" crash ∷ stops ∷ []

served_mux_example :
    CalmMux asynq (calls asynq early (new_queue_server asynq, 0)).0.mux
    × ((calls asynq (early ++ starts ∷ late) (new_queue_server asynq, 0)).0.mux
        ≡ (calls asynq early (new_queue_server asynq, 0)).0.mux)
served_mux_example = served_mux asynq early late 0

handled_in_time :
    (calls asynq early (new_queue_server asynq, 0)).0.mux ≡ ("mail", recover_handler crash) ∷ []
unfolding calls call handle_func new_queue_server
handled_in_time = refl

recovers : recover_handler crash 9 1 ≡ (returned (some (panic_error 9)), 1)
unfolding recover_handler recovered
recovers = refl

abbrev asynq_client : AsynqClient ℕ ℕ ℕ ℕ ℕ
asynq_client = record { send = λ c context task s. (task, inl c); disconnect = λ c s. (0, none) }

enqueued_by_nil : enqueue asynq_client none 5 1 ≡ (1, inr (sentinel client_not_initialized))
unfolding enqueue
enqueued_by_nil = refl

closed_without_client :
    close_client asynq_client (some (record { client = none })) 1
    ≡ (1, some (sentinel client_not_initialized))
unfolding close_client
closed_without_client = refl
