-- ===== src/Log/Tests.antt =====
-- Loggers by their writer and level.
use gopher_core.Common.{ℕ, ◌≡◌, refl, some, none, [], ◌∷◌}
use gopher_core.Common.Int.{ℤ, pos, negsuc}
use gopher_core.Runtime.{apply_options}
use gopher_core.Log.{with_level, with_writer, new_logger, initialize}

by_default : new_logger {L = ℕ × ℤ} (λ writer level. (writer, level)) 1 [] ≡ (1, pos 0)
unfolding new_logger apply_options
by_default = refl

last_counts :
    initialize {S = ℕ × ℤ}
      (λ writer level. (writer, level))
      1
      (λ logger s. logger)
      (some (with_writer 7) ∷ none ∷ some (with_level (pos 8)) ∷ some (with_level (negsuc 3)) ∷ [])
      (0, pos 0)
    ≡ (7, negsuc 3)
unfolding initialize new_logger apply_options with_level with_writer
last_counts = refl
