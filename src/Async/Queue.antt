-- ===== src/Async/Queue.antt =====
-- async/queue.go: the job queue's server, with its registration of handlers, and its client. What asynq
-- does is a parameter.
pub mod Registered
mod Tests
use gopher_core.Common.{Bool, true, false, ◌⊎◌, inl, inr, Option, none, some, String, if◌then◌else◌}
use gopher_core.Runtime.{Err, Outcome, returned, panicked, sentinel, client_not_initialized}
use gopher_core.Async.Group.{recovered}

-- A handler of tasks `X` runs in a state `S`, which holds the queue in Redis too.
abbrev pub Handler : Type 0 → Type 0 → Type 0
Handler X S = X → S → Outcome (Option Err) × S

-- asynq: a `ServeMux` is an `M`. `HandleFunc` may panic, as with a pattern that it has already.
pub record Asynq (M X S : Type 0) : Type 0 where
  pub new_mux : M
  pub register : String → Handler X S → M → Outcome M
  pub start : M → S → S × Option Err
  pub shutdown : S → S

pub record QueueServer (M : Type 0) : Type 0 where
  pub mux : M
  pub started : Bool

-- The handler that the mux is given, which recovers panics
unfoldable pub recover_handler : {X S : Type 0} → Handler X S → Handler X S
unfolding recovered
recover_handler handler task s = let (o, s') = handler task s in (returned (recovered o), s')

module _ {M X S : Type 0} (lib : Asynq M X S) where
  unfoldable pub new_queue_server : QueueServer M
  new_queue_server = record { mux = lib.new_mux; started = false }

  -- The server after the mux's own `HandleFunc`, through whose panic the mutex is unlocked
  abbrev pub registered : QueueServer M → Outcome M → Outcome {0} Unit × QueueServer M
  registered q (returned m) = (returned tt, record q { mux = m })
  registered q (panicked v) = (panicked v, q)

  -- `HandleFunc`; its own panic, after the start, is the one with 0.
  unfoldable pub handle_func :
      String → Handler X S → QueueServer M → Outcome {0} Unit × QueueServer M
  unfolding recover_handler
  handle_func pattern handler q =
      if q.started
      then (panicked 0, q)
      else registered q (lib.register pattern (recover_handler handler) q.mux)

  -- `Start`
  unfoldable pub start_queue : QueueServer M → S → (QueueServer M × S) × Option Err
  start_queue q s = let (s', err) = lib.start q.mux s in ((record q { started = true }, s'), err)

  -- `Shutdown`, and `Stop`, which calls it
  unfoldable pub shutdown_queue : S → S
  shutdown_queue s = lib.shutdown s

  unfoldable pub stop_queue : S → S
  unfolding shutdown_queue
  stop_queue s = shutdown_queue s

-- asynq's client, to which `X` is a task with its options and `I` the information on it; `context` is none
-- in a call without one.
pub record AsynqClient (C K X I S : Type 0) : Type 0 where
  pub send : C → (context : Option K) → X → S → S × (I ⊎ Err)
  pub disconnect : C → S → S × Option Err

-- `QueueClient`: its pointer to asynq's client
pub record QueueClient (C : Type 0) : Type 0 where
  pub client : Option C

-- `NewQueueClient`, of the client that asynq makes
unfoldable pub new_queue_client : {C : Type 0} → C → Option (QueueClient C)
new_queue_client c = some (record { client = some c })

module _ {C K X I S : Type 0} (lib : AsynqClient C K X I S) where
  -- asynq's client, if the pointer to the `QueueClient` and the one in it are not nil
  abbrev pub connected : Option (QueueClient C) → Option C
  connected none = none
  connected (some c) = c.client

  abbrev pub send_by : Option C → Option K → X → S → S × (I ⊎ Err)
  send_by none context task s = (s, inr (sentinel client_not_initialized))
  send_by (some c) context task s = lib.send c context task s

  unfoldable pub enqueue : Option (QueueClient C) → X → S → S × (I ⊎ Err)
  enqueue c task s = send_by (connected c) none task s

  unfoldable pub enqueue_context : Option (QueueClient C) → K → X → S → S × (I ⊎ Err)
  enqueue_context c context task s = send_by (connected c) (some context) task s

  abbrev pub close_by : Option C → S → S × Option Err
  close_by none s = (s, some (sentinel client_not_initialized))
  close_by (some c) s = lib.disconnect c s

  unfoldable pub close_client : Option (QueueClient C) → S → S × Option Err
  close_client c s = close_by (connected c) s
