-- ===== src/Cache/Lifecycle/Runs.antt =====
-- The goroutines at the end of a cache's life (cachekit/memory.go): `cleanupLoop`, and any number of
-- calls of `Close`, of which `closeOnce` lets one close the stop channel and all wait for the loop.
use gopher_core.Common.{
  ℕ, ◌≡◌, Bool, true, false, Option, none, some, List, [], ◌∷◌, ◌++◌, String, if◌then◌else◌,
}
use gopher_core.Common.Int.{ℤ}
use gopher_core.Cache.{Store, scan, sweep}
use gopher_core.Cache.Lifecycle.{Lifecycle, new_lifecycle, close}

-- `cleanupLoop` at its `select`, or between the two phases of `evictExpired`
pub data Loop : Type 0 where
  selecting : Loop
  evicting : List (String × Option ℤ) → Loop

-- A call of `Close`, of which the last has panicked
pub data Closer : Type 0 where
  calling waiting finished crashed : Closer

abbrev pub is_crashed : Closer → Bool
is_crashed crashed = true
is_crashed _ = false

-- `loop` is none where no cleanup goroutine runs, as `wg` counts.
pub record Cleaner : Type 0 where
  pub life : Lifecycle
  pub loop : Option Loop
  pub closers : List Closer
  pub store : Store

-- `NewInMemoryCache`
unfoldable pub boot : ℤ → Store → Cleaner
unfolding new_lifecycle
boot interval store = record {
  life = new_lifecycle interval;
  loop = if (new_lifecycle interval).sweeping then some selecting else none;
  closers = [];
  store = store;
}

-- What `closeOnce.Do` comes to
abbrev pub after_once : Option Lifecycle → List Closer → List Closer → Cleaner → Cleaner
after_once none before after s = record s { closers = before ++ crashed ∷ after }
after_once (some l) before after s = record s { life = l; closers = before ++ waiting ∷ after }

-- `Close` up to its wait
unfoldable pub run_once : List Closer → List Closer → Cleaner → Cleaner
unfolding close
run_once before after s = after_once (close s.life) before after s

-- `c.wg.Wait()` and the end of `Close`
abbrev pub finish : List Closer → List Closer → Cleaner → Cleaner
finish before after s = record s { closers = before ++ finished ∷ after }

-- The moves of the cache itself
pub data Move : Cleaner → Cleaner → Type 0 where
  closes :
      (s : Cleaner) (before after : List Closer)
      → s.closers ≡ before ++ calling ∷ after
      → Move s (run_once before after s)
  finishes :
      (s : Cleaner) (before after : List Closer)
      → s.closers ≡ before ++ waiting ∷ after
      → s.loop ≡ none
      → Move s (finish before after s)
  stops :
      (s : Cleaner)
      → s.loop ≡ some selecting
      → s.life.stop_closed ≡ true
      → Move s (record s { loop = none })
  sweeps :
      (s : Cleaner) (es : List (String × Option ℤ))
      → s.loop ≡ some (evicting es)
      → Move s (record s { loop = some selecting; store = sweep es s.store })

-- A move, a tick that the loop receives, a new call of `Close`, or what other calls do to the store
pub data Step : Cleaner → Cleaner → Type 0 where
  moves : {s t : Cleaner} → Move s t → Step s t
  ticks :
      (s : Cleaner) (now : ℕ)
      → s.loop ≡ some selecting
      → Step s (record s { loop = some (evicting (scan now s.store.items)) })
  calls : (s : Cleaner) → Step s (record s { closers = calling ∷ s.closers })
  others : (s : Cleaner) (store : Store) → Step s (record s { store = store })

pub data Run : Cleaner → Cleaner → Type 0 where
  stay : (s : Cleaner) → Run s s
  go : {s t u : Cleaner} → Run s t → Step t u → Run s u

abbrev pub Reach : ℤ → Store → Cleaner → Type 0
Reach interval store s = Run (boot interval store) s
