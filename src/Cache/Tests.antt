-- ===== src/Cache/Tests.antt =====
-- Runs of the cache, and the theorems at concrete inputs.
use gopher_core.Common.{◌≡◌, refl, none, some, List, [], ◌∷◌, arith, ◌==◌}
use gopher_core.Common.Int.{pos, ◌+ℤ◌}
use gopher_core.Common.Dict.{lookup, insert}
use gopher_core.Cache.{Store, get, evict_expired, expiry}
use gopher_core.Cache.Eviction.{evict_keeps_fresh}
use gopher_core.Cache.Isolation.{
  Program, Action, writes, sets, gets, deletes, evicts, act, IsPrivate,
}
use gopher_core.Cache.RoundTrip.{run, get-set}

-- Two entries, of which "a" has expired at 60; the caller's slice is at 2.
abbrev store : Store
store = record {
  items =
      ("a", record { slice = 0; expiration = some (pos 50) })
      ∷ ("b", record { slice = 1; expiration = none })
      ∷ [];
  heap = λ a. a ∷ [];
  next = 3;
}

abbrev program : Program
program = record { store = store; known = λ a. a == 2 }

program-IsPrivate : IsPrivate program
unfolding lookup
program-IsPrivate = record { apart = λ k. ground arith; below = λ a h. ground arith }

abbrev renewed : Store → Store
renewed s = record s {
  items = insert "a" (record { slice = 1; expiration = some (pos 90) }) s.items;
}

evict_keeps_fresh_example :
    lookup "a" (evict_expired 60 renewed store).items
    ≡ some (record { slice = 1; expiration = some (pos 90) })
unfolding lookup insert
evict_keeps_fresh_example = evict_keeps_fresh 60 renewed "a" store refl

abbrev busy : List Action
busy = writes 2 (9 ∷ 9 ∷ []) ∷ gets "c" 61 ∷ writes 4 (8 ∷ []) ∷ evicts 62 ∷ deletes "a" ∷ []

get-set_example :
    let s = (run busy (act (sets "c" 2 (pos 5) 60) program)).store in
    (get none "c" 65 (λ x. x) s).0.heap s.next ≡ 2 ∷ []
unfolding expiry ◌+ℤ◌
get-set_example =
    (get-set "c" 2 (pos 5) 60 65 busy program program-IsPrivate refl
      (tt, (refl, (tt, (refl, (refl, tt))))) refl).1
