-- ===== src/Http/Shutdown/Tests.antt =====
-- A server that gets a signal and is shut down in time, while its goroutine sends to nobody.
use gopher_core.Common.{refl, ◌==◌, Bool, true, false, Option, none, some}
use gopher_core.Common.Int.{ℤ, pos}
use gopher_core.Runtime.{Err, other}
use gopher_core.Http.Router.{graceful_shutdown}
use gopher_core.Http.Shutdown.{
  Shutdown, shutting, begin, end_serving, finish, ends, signals, notices, finishes, Reach, here,
  next, Explains, shutdown_explained,
}

abbrev is_closed : Err → Bool
is_closed (other n) = n == 3
is_closed _ = false

abbrev shutdown : Option ℤ → Option Err
shutdown none = some (other 1)
shutdown (some t) = none

abbrev in_shutdown : Shutdown
in_shutdown = record (record begin { quit = true }) { waiter = shutting }

-- `Shutdown` makes `ListenAndServe` return, and returns itself.
abbrev after : Shutdown
after = finish is_closed shutdown (pos 5) (end_serving (some (other 3)) in_shutdown)

after_reached : Reach is_closed shutdown (pos 5) after
after_reached =
    next
      (next (next (next here (signals _)) (notices _ refl refl))
        (ends in_shutdown (some (other 3)) refl))
      (finishes _ refl)

shutdown_explained_example : Explains is_closed shutdown (pos 5) (some (some (other 3))) true none
unfolding finish graceful_shutdown
shutdown_explained_example =
    (shutdown_explained is_closed shutdown (pos 5) after_reached).0 none refl
