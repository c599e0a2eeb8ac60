-- ===== src/Cache/Lifecycle/Tests.antt =====
-- A cache that is closed while its cleanup goroutine evicts.
use gopher_core.Common.{◌<◌, ◌≡◌, refl, ◌⊎◌, true, none, some, [], ◌∷◌, count_if}
use gopher_core.Common.Int.{pos}
use gopher_core.Cache.{Store, scan, sweep}
use gopher_core.Cache.Lifecycle.{new_lifecycle, close}
use gopher_core.Cache.Lifecycle.Runs.{
  selecting, evicting, calling, finished, is_crashed, Cleaner, boot, run_once, finish, Move, closes,
  finishes, stops, sweeps, moves, ticks, calls, stay, go, Reach,
}
use gopher_core.Cache.Lifecycle.Ending.{close_ends_cleanup}
use gopher_core.Cache.Lifecycle.Progress.{work, is_pending, close_progress}

abbrev stock : Store
stock = record {
  items = ("k", record { slice = 0; expiration = some (pos 3) }) ∷ [];
  heap = λ a. [];
  next = 1;
}

-- A tick, two calls of `Close` during the eviction, one of which closes the channel
abbrev s1 : Cleaner
s1 = record (boot (pos 5) stock) { loop = some (evicting (scan 5 stock.items)) }

abbrev s2 : Cleaner
s2 = record (record s1 { closers = calling ∷ [] }) { closers = calling ∷ calling ∷ [] }

abbrev s3 : Cleaner
s3 = run_once [] (calling ∷ []) s2

s3_reached : Reach (pos 5) stock s3
unfolding boot new_lifecycle
s3_reached =
    go (go (go (go (stay _) (ticks _ 5 refl)) (calls _)) (calls _))
      (moves (closes s2 [] (calling ∷ []) refl))

close_progress_example :
    ((count_if is_pending s3.closers ≡ 0) ⊎ ((t : Cleaner) × Move s3 t))
    × ((t : Cleaner) → Move s3 t → work t < work s3)
close_progress_example = close_progress (pos 5) stock s3 s3_reached

-- The eviction and the loop end, and the first call returns.
abbrev s4 : Cleaner
s4 = record s3 { loop = some selecting; store = sweep (scan 5 stock.items) s3.store }

abbrev s5 : Cleaner
s5 = finish [] (calling ∷ []) (record s4 { loop = none })

s5_reached : Reach (pos 5) stock s5
unfolding boot new_lifecycle run_once close
s5_reached =
    go (go (go s3_reached (moves (sweeps s3 _ refl))) (moves (stops s4 refl refl)))
      (moves (finishes (record s4 { loop = none }) [] (calling ∷ []) refl refl))

close_ends_cleanup_example :
    (s5.life.stop_closed ≡ true)
    × (s5.loop ≡ none)
    × (count_if is_crashed (run_once (finished ∷ []) [] s5).closers ≡ 0)
unfolding run_once close boot new_lifecycle
close_ends_cleanup_example =
    close_ends_cleanup (pos 5) stock s5 _ [] (calling ∷ []) s5_reached refl
      (go (stay s5) (moves (closes s5 (finished ∷ []) [] refl)))
