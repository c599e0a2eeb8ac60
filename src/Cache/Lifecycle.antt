-- ===== src/Cache/Lifecycle.antt =====
-- The background cleanup of cachekit/memory.go: `cleanupLoop` over what its `select` receives, and
-- `Close`, which closes the stop channel once.
pub mod Runs
pub mod Ending
pub mod Progress
mod Tests
use gopher_core.Common.{
  ℕ, zero, suc, ◌≡◌, refl, Bool, true, false, Option, none, some, List, [], ◌∷◌, if◌then◌else◌,
}
use gopher_core.Common.Int.{ℤ, pos, leb_ℤ}
use gopher_core.Cache.{Store, evict_expired}

-- What one round of the `select` receives: a tick, at its time and with what the other goroutines do
-- between the phases of the eviction, or the closed stop channel.
pub data Signal : Type 0 where
  tick : ℕ → (Store → Store) → Signal
  stop : Signal

-- `cleanupLoop`: the store after these signals, and whether the goroutine has ended
pub cleanup_loop : List Signal → Store → Store × Bool
cleanup_loop [] s = (s, false)
cleanup_loop (tick now others ∷ rest) s = cleanup_loop rest (evict_expired now others s)
cleanup_loop (stop ∷ rest) s = (s, true)

-- What the life of a cache is: whether `closeOnce` has run, whether `stopCh` is closed, and whether a
-- cleanup goroutine was started.
pub record Lifecycle : Type 0 where
  pub once : Bool
  pub stop_closed : Bool
  pub sweeping : Bool

-- `NewInMemoryCache`
unfoldable pub new_lifecycle : ℤ → Lifecycle
new_lifecycle interval = record {
  once = false;
  stop_closed = false;
  sweeping = if leb_ℤ interval (pos 0) then false else true;
}

-- `close(c.stopCh)`: none for the panic on a channel that is closed already
abbrev close_channel : Lifecycle → Option Lifecycle
close_channel l = if l.stop_closed then none else some (record l { stop_closed = true })

-- `Close`, up to its wait
pub close : Lifecycle → Option Lifecycle
close l = if l.once then some l else close_channel (record l { once = true })

pub close_times : ℕ → Lifecycle → Option Lifecycle
unfolding close
close_times zero l = some l
close_times (suc n) l = elim (close l) [ none ↦ none | some l' ↦ close_times n l' ]

closed : Lifecycle → Lifecycle
closed l = record l { once = true; stop_closed = true }

close_again : (n : ℕ) (l : Lifecycle) → close_times n (closed l) ≡ some (closed l)
unfolding close_times closed
close_again zero l = refl
close_again (suc n) l = close_again n l

-- However often `Close` is called on a new cache, it closes the stop channel once and does not panic.
pub close_once :
    (interval : ℤ) (n : ℕ)
    → close_times (suc n) (new_lifecycle interval)
      ≡ some (record (new_lifecycle interval) { once = true; stop_closed = true })
unfolding close_times new_lifecycle closed
close_once interval n = close_again n (new_lifecycle interval)
