-- ===== src/Http/Shutdown.antt =====
-- `GracefulShutdown` (httpkit/router.go) as goroutines: the one of the server, which sends what
-- `ListenAndServe` returned on a channel with room for one value, and the caller's, which selects
-- between that and a signal.
mod Tests
use gopher_core.Common.{
  ◌≡◌, refl, subst, ◌∙◌, ◌⊎◌, inl, inr, Bool, true, false, Option, none, some, arith, if◌then◌else◌,
}
use gopher_core.Common.Int.{ℤ, pos, ltb_ℤ}
use gopher_core.Runtime.{Err}
use gopher_core.Http.Router.{served, signalled, graceful_shutdown}

pub data Listener : Type 0 where
  serving : Listener
  sending : Option Err → Listener
  gone : Listener

pub data Waiter : Type 0 where
  selecting shutting : Waiter
  finished : Option Err → Waiter

-- `returned` is what `ListenAndServe` has returned, `server_err` what the channel of that name holds, and
-- `quit` whether a signal is there.
pub record Shutdown : Type 0 where
  pub listener : Listener
  pub returned : Option (Option Err)
  pub server_err : Option (Option Err)
  pub quit : Bool
  pub waiter : Waiter

abbrev pub begin : Shutdown
begin = record {
  listener = serving;
  returned = none;
  server_err = none;
  quit = false;
  waiter = selecting;
}

abbrev pub end_serving : Option Err → Shutdown → Shutdown
end_serving o s = record s { listener = sending o; returned = some o }

-- `serverErr <- …`
abbrev pub send : Option Err → Shutdown → Shutdown
send o s = record s { listener = gone; server_err = some o }

-- A test for `http.ErrServerClosed`, and what `Shutdown` of the server returns under a context with a
-- timeout, or without one
module _ (is_closed : Err → Bool) (shutdown : Option ℤ → Option Err) (timeout : ℤ) where
  -- The first case of the `select`
  unfoldable pub receive : Option Err → Shutdown → Shutdown
  unfolding graceful_shutdown
  receive o s = record s {
    server_err = none;
    waiter = finished (graceful_shutdown is_closed shutdown timeout (served o));
  }

  -- The end of the second case
  unfoldable pub finish : Shutdown → Shutdown
  unfolding graceful_shutdown
  finish s = record s { waiter = finished (graceful_shutdown is_closed shutdown timeout signalled) }

  -- The server can end at any time, as `Shutdown` or an error makes it; a send waits for room.
  pub data Step : Shutdown → Shutdown → Type 0 where
    ends : (s : Shutdown) (o : Option Err) → s.listener ≡ serving → Step s (end_serving o s)
    sends :
        (s : Shutdown) (o : Option Err)
        → s.listener ≡ sending o
        → s.server_err ≡ none
        → Step s (send o s)
    signals : (s : Shutdown) → Step s (record s { quit = true })
    receives :
        (s : Shutdown) (o : Option Err)
        → s.waiter ≡ selecting
        → s.server_err ≡ some o
        → Step s (receive o s)
    notices :
        (s : Shutdown)
        → s.waiter ≡ selecting
        → s.quit ≡ true
        → Step s (record s { waiter = shutting })
    finishes : (s : Shutdown) → s.waiter ≡ shutting → Step s (finish s)

  pub data Reach : Shutdown → Type 0 where
    here : Reach begin
    next : {s t : Shutdown} → Reach s → Step s t → Reach t

  -- What the caller gets: of a server that returned by itself its error, but for `http.ErrServerClosed`, or
  -- after a signal what `Shutdown` returns, under a deadline if the timeout is above zero
  abbrev pub Explains : (returned : Option (Option Err)) → (quit : Bool) → Option Err → Type 0
  Explains returned quit r =
      ((returned ≡ some none) × (r ≡ none))
      ⊎ (((e : Err) × (returned ≡ some (some e)) × (r ≡ (if is_closed e then none else some e)))
          ⊎ ((quit ≡ true) × (r ≡ shutdown (if ltb_ℤ (pos 0) timeout then some timeout else none))))

  abbrev Waits : Option (Option Err) → Bool → Waiter → Type 0
  Waits returned quit selecting = Unit
  Waits returned quit shutting = quit ≡ true
  Waits returned quit (finished r) = Explains returned quit r

  abbrev Listens : Option (Option Err) → Option (Option Err) → Listener → Type 0
  Listens held returned serving = (held ≡ none) × (returned ≡ none)
  Listens held returned (sending o) = (held ≡ none) × (returned ≡ some o)
  Listens held returned gone = Unit

  record IsOrderly (s : Shutdown) : Type 0 where
    listens : Listens s.server_err s.returned s.listener
    waits : Waits s.returned s.quit s.waiter
    kept : (o : Option Err) → s.server_err ≡ some o → s.returned ≡ some o

  served-Explains :
      (returned : Option (Option Err)) (quit : Bool) (o : Option Err)
      → returned ≡ some o
      → Explains returned quit (graceful_shutdown is_closed shutdown timeout (served o))
  unfolding graceful_shutdown
  served-Explains returned quit none h = inl (h, refl)
  served-Explains returned quit (some e) h = inr (inl (e, h, refl))

  signalled-Explains :
      (returned : Option (Option Err)) (quit : Bool)
      → quit ≡ true
      → Explains returned quit (graceful_shutdown is_closed shutdown timeout signalled)
  unfolding graceful_shutdown
  signalled-Explains returned quit h = inr (inr (h, refl))

  Waits-later :
      (p q : Option (Option Err)) (old new : Bool)
      → ((o : Option Err) → p ≡ some o → q ≡ some o)
      → (old ≡ true → new ≡ true)
      → (w : Waiter) → Waits p old w
      → Waits q new w
  Waits-later p q old new f g selecting h = h
  Waits-later p q old new f g shutting h = g h
  Waits-later p q old new f g (finished r) (inl (e, same)) = inl (f none e, same)
  Waits-later p q old new f g (finished r) (inr (inl (e, back, same))) =
      inr (inl (e, f (some e) back, same))
  Waits-later p q old new f g (finished r) (inr (inr (e, same))) = inr (inr (g e, same))

  Listens-emptied :
      (held returned : Option (Option Err)) (l : Listener)
      → Listens held returned l
      → Listens none returned l
  Listens-emptied held returned serving h = (refl, h.1)
  Listens-emptied held returned (sending o) h = (refl, h.1)
  Listens-emptied held returned gone h = h

  Step-IsOrderly : {s t : Shutdown} → IsOrderly s → Step s t → IsOrderly t
  unfolding receive finish
  Step-IsOrderly h (ends s o e) =
      let (empty, early) = subst (Listens s.server_err s.returned) e h.listens in
      record {
        listens = (empty, refl);
        waits =
            Waits-later s.returned (some o) s.quit s.quit (λ r b. ground (arith, b, early)) (λ q. q)
              s.waiter h.waits;
        kept = λ r b. ground (arith, b, empty);
      }
  Step-IsOrderly h (sends s o e f) = record {
    listens = tt;
    waits = h.waits;
    kept = λ r b. (subst (Listens s.server_err s.returned) e h.listens).1 ∙ b;
  }
  Step-IsOrderly h (signals s) = record {
    listens = h.listens;
    waits = Waits-later s.returned s.returned s.quit true (λ r b. b) (λ q. refl) s.waiter h.waits;
    kept = h.kept;
  }
  Step-IsOrderly h (receives s o e f) = record {
    listens = Listens-emptied s.server_err s.returned s.listener h.listens;
    waits = served-Explains s.returned s.quit o (h.kept o f);
    kept = λ r b. ground (arith, b);
  }
  Step-IsOrderly h (notices s e q) = record { listens = h.listens; waits = q; kept = h.kept }
  Step-IsOrderly h (finishes s e) = record {
    listens = h.listens;
    waits = signalled-Explains s.returned s.quit (subst (Waits s.returned s.quit) e h.waits);
    kept = h.kept;
  }

  Reach-IsOrderly : {s : Shutdown} → Reach s → IsOrderly s
  Reach-IsOrderly here = record {
    listens = (refl, refl);
    waits = tt;
    kept = λ o e. ground (arith, e);
  }
  Reach-IsOrderly (next r st) = Step-IsOrderly (Reach-IsOrderly r) st

  -- However the server's goroutine, the signals and the caller interleave: when `GracefulShutdown` has
  -- returned, it is with what `ListenAndServe` had returned, `http.ErrServerClosed` being no error, or,
  -- if a signal had come, with what the server's `Shutdown` returns, under a deadline exactly if the
  -- timeout is above zero; and whenever the goroutine is to send, before or after that, the channel is
  -- empty, so that it never waits for somebody to receive.
  pub shutdown_explained :
      {s : Shutdown}
      → Reach s
      → ((r : Option Err) → s.waiter ≡ finished r → Explains s.returned s.quit r)
        × ((o : Option Err) → s.listener ≡ sending o → s.server_err ≡ none)
  shutdown_explained {s} reached =
      let h = Reach-IsOrderly reached in
      (
        λ r e. subst (Waits s.returned s.quit) e h.waits,
        λ o e. (subst (Listens s.server_err s.returned) e h.listens).0,
      )
