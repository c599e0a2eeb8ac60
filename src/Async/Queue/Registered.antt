-- ===== src/Async/Queue/Registered.antt =====
-- Which handlers the server of async/queue.go runs.
use gopher_core.Common.{
  ◌≡◌, refl, sym, ap, ◌∙◌, true, Bool-cases, inl, inr, Option, List, [], ◌∷◌, ◌++◌, String,
}
use gopher_core.Runtime.{Err, Outcome, returned, panicked}
use gopher_core.Async.Group.{recovered}
use gopher_core.Async.Queue.{
  Handler, Asynq, QueueServer, recover_handler, new_queue_server, registered, handle_func,
  start_queue, stop_queue,
}

-- A call of the server
pub data Call (X S : Type 0) : Type 0 where
  handles : String → Handler X S → Call X S
  starts : Call X S
  stops : Call X S

-- The handler never panics.
abbrev pub IsCalm : {X S : Type 0} → Handler X S → Type 0
IsCalm {X} {S} handler = (task : X) (s : S) → (e : Option Err) × ((handler task s).0 ≡ returned e)

module _ {M X S : Type 0} (lib : Asynq M X S) where
  unfoldable pub call : Call X S → QueueServer M × S → QueueServer M × S
  unfolding handle_func start_queue stop_queue
  call (handles pattern handler) (q, s) = ((handle_func lib pattern handler q).1, s)
  call starts (q, s) = (start_queue lib q s).0
  call stops (q, s) = (q, stop_queue lib s)

  unfoldable pub calls : List (Call X S) → QueueServer M × S → QueueServer M × S
  unfolding call
  calls [] p = p
  calls (c ∷ cs) p = calls cs (call c p)

  -- A mux of handlers that never panic
  pub data CalmMux : M → Type 0 where
    no_handler : CalmMux lib.new_mux
    one_more :
        {m m' : M} (pattern : String) (handler : Handler X S)
        → CalmMux m
        → IsCalm handler
        → lib.register pattern handler m ≡ returned m'
        → CalmMux m'

  recover_handler-IsCalm : (handler : Handler X S) → IsCalm (recover_handler handler)
  unfolding recover_handler
  recover_handler-IsCalm handler task s = (recovered (handler task s).0, refl)

  registered-CalmMux :
      (q : QueueServer M) (pattern : String) (handler : Handler X S) (o : Outcome M)
      → lib.register pattern handler q.mux ≡ o
      → IsCalm handler
      → CalmMux q.mux
      → CalmMux (registered lib q o).1.mux
  registered-CalmMux q pattern handler (returned m) e calm h = one_more pattern handler h calm e
  registered-CalmMux q pattern handler (panicked v) e calm h = h

  call-CalmMux :
      (c : Call X S) (q : QueueServer M) (s : S) → CalmMux q.mux → CalmMux (call c (q, s)).0.mux
  unfolding call handle_func start_queue
  call-CalmMux (handles pattern handler) q s h = elim (Bool-cases q.started) [
    | inl on ↦ rw on h
    | inr off ↦ simp off (
        registered-CalmMux q pattern (recover_handler handler) _ refl
          (recover_handler-IsCalm handler) h)
  ]
  call-CalmMux starts q s h = h
  call-CalmMux stops q s h = h

  calls-CalmMux :
      (cs : List (Call X S)) (p : QueueServer M × S) → CalmMux p.0.mux → CalmMux (calls cs p).0.mux
  unfolding calls
  calls-CalmMux [] p h = h
  calls-CalmMux (c ∷ cs) (q, s) h = calls-CalmMux cs (call c (q, s)) (call-CalmMux c q s h)

  call_after_start :
      (c : Call X S) (q : QueueServer M) (s : S) → q.started ≡ true → (call c (q, s)).0 ≡ q
  unfolding call handle_func start_queue
  call_after_start (handles pattern handler) q s on = rw on
  call_after_start starts q s on = ap (λ b. record q { started = b }) (sym on)
  call_after_start stops q s on = refl

  calls_after_start :
      (cs : List (Call X S)) (q : QueueServer M) (s : S)
      → q.started ≡ true
      → (calls cs (q, s)).0 ≡ q
  unfolding calls
  calls_after_start [] q s on = refl
  calls_after_start (c ∷ cs) q s on =
      ap (λ r. (calls cs (r, (call c (q, s)).1)).0) (call_after_start c q s on)
      ∙ calls_after_start cs q (call c (q, s)).1 on

  calls-append :
      (front back : List (Call X S)) (p : QueueServer M × S)
      → calls (front ++ back) p ≡ calls back (calls front p)
  unfolding calls
  calls-append [] back p = refl
  calls-append (c ∷ front) back p = calls-append front back (call c p)

  calls_from_start :
      (before after : List (Call X S)) (p : QueueServer M × S)
      → (calls (before ++ starts ∷ after) p).0 ≡ record ((calls before p).0) { started = true }
  unfolding calls call start_queue
  calls_from_start before after p =
      ap (λ r. r.0) (calls-append before (starts ∷ after) p)
      ∙ calls_after_start after _ (lib.start (calls before p).0.mux (calls before p).1).0 refl

  handle_func_started :
      (q : QueueServer M) (pattern : String) (handler : Handler X S)
      → q.started ≡ true
      → handle_func lib pattern handler q ≡ (panicked 0, q)
  unfolding handle_func
  handle_func_started q pattern handler on = rw on

  -- Whatever calls a new server gets, in any order, every handler in its mux recovers panics and
  -- never panics, and from the first `Start` on the mux stays as it was then.
  pub served_mux :
      (before after : List (Call X S)) (s : S)
      → CalmMux (calls before (new_queue_server lib, s)).0.mux
        × ((calls (before ++ starts ∷ after) (new_queue_server lib, s)).0.mux
            ≡ (calls before (new_queue_server lib, s)).0.mux)
  unfolding new_queue_server
  served_mux before after s = (
    calls-CalmMux before _ no_handler,
    ap (λ q. q.mux) (calls_from_start before after (new_queue_server lib, s)),
  )

  -- `HandleFunc` panics on a server that `Start` was called on, whatever calls came before and since,
  -- and changes nothing.
  pub handle_func_late :
      (before after : List (Call X S)) (s : S) (pattern : String) (handler : Handler X S)
      → handle_func lib pattern handler
          (calls (before ++ starts ∷ after) (new_queue_server lib, s)).0
        ≡ (panicked 0, (calls (before ++ starts ∷ after) (new_queue_server lib, s)).0)
  handle_func_late before after s pattern handler =
      handle_func_started _ pattern handler
        (ap (λ q. q.started) (calls_from_start before after (new_queue_server lib, s)))
