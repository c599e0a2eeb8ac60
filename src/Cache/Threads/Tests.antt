-- ===== src/Cache/Threads/Tests.antt =====
-- Goroutines that set, delete and look up a key of the in-memory cache.
use gopher_core.Common.{◌≡◌, refl, none, some, [], ◌∷◌, map, String, All, arith}
use gopher_core.Common.Int.{pos, ◌+ℤ◌}
use gopher_core.Common.Dict.{lookup, insert, erase}
use gopher_core.Cache.{Item, expiry, clone}
use gopher_core.Cache.Threads.{
  storing, System, start, make_slice, write_slice, begin_set, end_set, begin_get, decide,
  delete_key, stores, makes, writes, sets, set_ends, gets, decides, copies, deletes, Reach, here,
  next, end_copy,
}
use gopher_core.Cache.Threads.Refines.{contents, apply, step_refines}
use gopher_core.Cache.Threads.Answers.{IsExplained, Reach-IsExplained}
use gopher_core.Cache.Threads.Missed.{outcome, Kept, renewed_key_missed}

abbrev key : String
key = "k"

abbrev item : Item
item = record { slice = 1; expiration = some (pos 10) }

-- The program makes a slice and sets the key to it, but overwrites the slice before the call stores its copy.
abbrev copied : System
copied = write_slice 0 (9 ∷ []) (
    begin_set key 0 (pos 10) 0
      (make_slice (7 ∷ []) (start (record { items = []; heap = λ a. []; next = 0 }))))

copied-Reach : Reach copied
unfolding start begin_set clone
copied-Reach =
    next (next (next here (makes _ (7 ∷ []))) (sets _ key 0 (pos 10) 0 refl (omega arith)))
      (writes _ 0 (9 ∷ []) refl)

storing-copied : copied.calls ≡ storing key item (7 ∷ []) ∷ []
unfolding start begin_set expiry ◌+ℤ◌ clone
storing-copied = refl

step_refines_example :
    contents (end_set [] key item [] copied) 5 key
    ≡ apply (stores key (7 ∷ []) (some (pos 10))) (contents copied) 5 key
unfolding start begin_set end_set
step_refines_example =
    step_refines 5 key copied-Reach (set_ends copied [] key item (7 ∷ []) [] storing-copied)
      (omega arith)

-- A lookup finds the key, which is deleted before the lookup copies the bytes.
abbrev answered : System
answered = end_copy [] key item (7 ∷ []) 0 0 [] (
    delete_key key
      (decide [] key item (7 ∷ []) 0 [] (begin_get key (end_set [] key item [] copied))))

answered-Reach : Reach answered
unfolding start begin_set expiry ◌+ℤ◌ clone end_set begin_get lookup insert decide delete_key
answered-Reach =
    next
      (next
        (next
          (next (next copied-Reach (set_ends copied [] key item (7 ∷ []) [] storing-copied))
            (gets _ key))
          (decides _ [] key item (7 ∷ []) 0 [] refl))
        (deletes _ key))
      (copies _ [] key item (7 ∷ []) 0 0 [] refl)

Reach-IsExplained_example : All IsExplained answered.answered
Reach-IsExplained_example = Reach-IsExplained answered-Reach

answered_hit : map (λ a. a.answer) answered.answered ≡ some (7 ∷ []) ∷ []
unfolding start begin_set expiry ◌+ℤ◌ clone end_set begin_get lookup insert delete_key decide
    end_copy erase
answered_hit = refl

renewed_key_missed_example :
    (s : System) × (t : System) × Reach s
    × Kept key (7 ∷ []) s t
    × (s.answered ≡ [])
    × (map outcome t.answered ≡ ((key, (0, 5)), none) ∷ [])
renewed_key_missed_example = renewed_key_missed key (7 ∷ []) 3
