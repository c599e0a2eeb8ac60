-- ===== src/Cache/Threads/Answers.antt =====
-- What the lookups of the cache (cachekit/memory.go) answer while other goroutines run.
use gopher_core.Common.{
  ℕ, ◌≡◌, refl, sym, subst, Bool, true, false, Option, none, some, List, String, All, arith,
}
use gopher_core.Common.Dict.{lookup}
use gopher_core.Cache.{Item, has_expired, clone}
use gopher_core.Cache.Contract.Methods.{fresh}
use gopher_core.Cache.Threads.{
  Call, stale, copying, Answered, System, start, begin_set, end_set, look, begin_get, decide_as,
  decide, end_get, end_copy, delete_key, begin_evict, end_evict, Label, Step, ticks, makes, writes,
  sets, set_ends, gets, decides, get_ends, copies, deletes, evicts, evict_ends, Reach, here, next,
}
use gopher_core.Cache.Threads.Safe.{IsSafe, dropped}
use gopher_core.Cache.Threads.Steps.{Reach-IsSafe}

-- A lookup answers with what is left, when it read the clock, of the entry that it had seen.
abbrev pub IsExplained : Answered → Type 0
IsExplained a = a.answer ≡ fresh a.decided a.seen

look-answered :
    (key : String) (o : Option Item) (s : System)
    → All IsExplained s.answered
    → All IsExplained (look key o s).answered
look-answered key none s h = (refl, h)
look-answered key (some item) s h = h

decide_as-answered :
    (old : Bool) (before : List Call) (key : String) (item : Item) (bytes : List ℕ) (since : ℕ)
    (after : List Call) (s : System)
    → (decide_as old before key item bytes since after s).answered ≡ s.answered
decide_as-answered true before key item bytes since after s = refl
decide_as-answered false before key item bytes since after s = refl

step-answered :
    {s t : System} {l : Label}
    → IsSafe s
    → Step s l t
    → All IsExplained s.answered
    → All IsExplained t.answered
unfolding clone begin_set end_set begin_get decide end_get end_copy delete_key begin_evict end_evict
step-answered safe (ticks s now later) h = h
step-answered safe (makes s bytes) h = h
step-answered safe (writes s a bytes e) h = h
step-answered safe (sets s key value d now e le) h = h
step-answered safe (set_ends s before key item bytes after e) h = h
step-answered safe (gets s key) h = look-answered key (lookup key s.store.items) s h
step-answered safe (decides s before key item bytes since after e) h =
    subst (All IsExplained)
      (sym (
        decide_as-answered (has_expired s.clock item.expiration) before key item bytes since after
          s))
      h
step-answered safe (get_ends s before key exp bytes since decided after e) h =
    (ground (arith, (dropped s before (stale key exp bytes since decided) after safe e).0.1), h)
step-answered safe (copies s before key item bytes since decided after e) h =
    let ((inside, own, same), new) =
      (dropped s before (copying key item bytes since decided) after safe e).0 in
    (ground (arith, same, new), h)
step-answered safe (deletes s key) h = h
step-answered safe (evicts s now le) h = h
step-answered safe (evict_ends s before es after e) h = h

-- However the goroutines interleave, each lookup that has returned answers of the entry that was there when
-- it looked its key up: with the bytes that the entry had at that time, if it had not expired when
-- the lookup read the clock, and with a miss if it had, or if there was no entry. It does so though
-- other calls replace or remove the entry, or write to their own slices, before the copy is made.
pub Reach-IsExplained : {s : System} → Reach s → All IsExplained s.answered
unfolding start
Reach-IsExplained here = tt
Reach-IsExplained (next r st) = step-answered (Reach-IsSafe r) st (Reach-IsExplained r)
