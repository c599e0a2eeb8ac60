-- ===== src/Cache/Threads/Missed.antt =====
-- A lookup of the cache (cachekit/memory.go) that misses a key that is there all the time: `Get` reads the
-- clock after it has let go of the lock, and tests the expiry of the entry that it found before.
use gopher_core.Common.{
  ℕ, suc, ◌≡◌, ◌∙◌, refl, subst, true, false, Option, none, some, List, [], ◌∷◌, ◌++◌, map, String,
  arith,
}
use gopher_core.Common.Int.{pos, ◌+ℤ◌}
use gopher_core.Common.Dict.{lookup, lookup-insert, same_key_refl}
use gopher_core.Cache.{Item, has_expired, expiry, clone}
use gopher_core.Cache.Threads.{
  Answered, Call, found, System, start, make_slice, tick, begin_set, end_set, look, begin_get,
  decide_as, decide, end_get, Label, quiet, Step, ticks, makes, sets, set_ends, gets, decides,
  get_ends, Reach, here, next,
}
use gopher_core.Cache.Threads.Refines.{contents, step_refines}

-- When a lookup looked its key up, when it read the clock, and what it returned
abbrev pub outcome : Answered → (String × (ℕ × ℕ)) × Option (List ℕ)
outcome a = ((a.key, (a.since, a.decided)), a.answer)

-- Steps in all of whose systems the key has these bytes
pub data Kept (key : String) (bytes : List ℕ) : System → System → Type 0 where
  stays : {s : System} → contents s s.clock key ≡ some bytes → Kept key bytes s s
  goes :
      {s t u : System} {l : Label}
      → Kept key bytes s t
      → Step t l u
      → contents u u.clock key ≡ some bytes
      → Kept key bytes s u

finds :
    (key : String) (item : Item) (s : System)
    → lookup key s.store.items ≡ some item
    → Step s quiet (look key (some item) s)
unfolding begin_get
finds key item s e = subst (λ o. Step s quiet (look key o s)) e (gets s key)

expires :
    (before : List Call) (key : String) (item : Item) (bytes : List ℕ) (since : ℕ)
    (after : List Call) (s : System)
    → s.calls ≡ before ++ found key item bytes since ∷ after
    → has_expired s.clock item.expiration ≡ true
    → Step s quiet (decide_as true before key item bytes since after s)
unfolding decide
expires before key item bytes since after s e old =
    subst (λ o. Step s quiet (decide_as o before key item bytes since after s)) old
      (decides s before key item bytes since after e)

young : (ttl : ℕ) → has_expired 0 (expiry 0 (pos (suc ttl))) ≡ false
unfolding expiry ◌+ℤ◌
young ttl = ground arith

aged : (ttl : ℕ) → has_expired (suc (suc ttl)) (expiry 0 (pos (suc ttl))) ≡ true
unfolding expiry ◌+ℤ◌
aged ttl = ground arith

contents-entry :
    (key : String) (item : Item) (bytes : List ℕ) (s : System) (now : ℕ)
    → lookup key s.store.items ≡ some item
    → s.store.heap item.slice ≡ bytes
    → has_expired now item.expiration ≡ false
    → contents s now key ≡ some bytes
contents-entry key item bytes s now e h new = ground (arith, e, h, new)

Kept-Reach : {key : String} {bytes : List ℕ} {s t : System} → Reach s → Kept key bytes s t → Reach t
Kept-Reach r (stays h) = r
Kept-Reach r (goes k st h) = next (Kept-Reach r k) st

module _ (key : String) (bytes : List ℕ) (ttl : ℕ) where
  abbrev old : Item
  old = record { slice = 1; expiration = expiry 0 (pos (suc ttl)) }

  abbrev new : Item
  new = record { slice = 2; expiration = expiry 0 (pos 0) }

  abbrev made : System
  made = make_slice bytes (start (record { items = []; heap = λ a. []; next = 0 }))

  abbrev stored : System
  stored = end_set [] key old [] (begin_set key 0 (pos (suc ttl)) 0 made)

  abbrev looked : System
  looked = look key (some old) stored

  abbrev renewing : System
  renewing = begin_set key 0 (pos 0) 0 looked

  abbrev renewed : System
  renewed = end_set [] key new (found key old bytes 0 ∷ []) renewing

  abbrev late : System
  late = tick (suc (suc ttl)) renewed

  abbrev judged : System
  judged = decide_as true [] key old bytes 0 [] late

  abbrev missed : System
  missed = end_get [] key old.expiration bytes 0 (suc (suc ttl)) [] judged

  old-stored : lookup key stored.store.items ≡ some old
  unfolding start begin_set end_set clone
  old-stored = ground (arith, lookup-insert key key old [], same_key_refl key)

  new-stored : lookup key renewed.store.items ≡ some new
  unfolding start begin_set end_set clone
  new-stored = ground (arith, lookup-insert key key new stored.store.items, same_key_refl key)

  stored-Reach : Reach stored
  unfolding start begin_set clone
  stored-Reach =
      next (next (next here (makes _ bytes)) (sets _ key 0 (pos (suc ttl)) 0 refl (omega arith)))
        (set_ends _ [] key old bytes [] refl)

  stored-contents : contents stored 0 key ≡ some bytes
  unfolding start begin_set end_set clone
  stored-contents = contents-entry key old bytes stored 0 old-stored refl (young ttl)

  renewed-contents : (now : ℕ) → contents renewed now key ≡ some bytes
  unfolding start begin_set end_set clone expiry
  renewed-contents now = contents-entry key new bytes renewed now new-stored refl refl

  judged-contents : contents judged (suc (suc ttl)) key ≡ some bytes
  unfolding start begin_set end_set
  judged-contents = renewed-contents (suc (suc ttl))

  renewing-contents : contents renewing 0 key ≡ some bytes
  unfolding start begin_set end_set clone
  renewing-contents = contents-entry key old bytes renewing 0 old-stored refl (young ttl)

  stored-judged : Kept key bytes stored judged
  unfolding start begin_set end_set clone
  stored-judged =
      let found_it =
        goes (stays stored-contents) (finds key old stored old-stored) stored-contents in
      let copied =
        goes found_it (sets looked key 0 (pos 0) 0 refl (omega arith)) renewing-contents in
      let entered =
        goes copied (set_ends renewing [] key new bytes (found key old bytes 0 ∷ []) refl)
          (renewed-contents 0) in
      let aged_now =
        goes entered (ticks renewed (suc (suc ttl)) (omega arith))
          (renewed-contents (suc (suc ttl))) in
      goes aged_now (expires [] key old bytes 0 [] late refl (aged ttl))
        (renewed-contents (suc (suc ttl)))

  last : Step judged quiet missed
  last = get_ends judged [] key old.expiration bytes 0 (suc (suc ttl)) [] refl

  missed-contents : contents missed missed.clock key ≡ some bytes
  unfolding end_get
  missed-contents =
      step_refines (suc (suc ttl)) key (Kept-Reach stored-Reach stored-judged) last (omega arith)
      ∙ renewed-contents (suc (suc ttl))

  -- For any key, bytes and instant from 2 on there is a run of the cache, from a reachable system in which no
  -- lookup has returned, in all of whose systems the key has these bytes at the time of then, and
  -- after which one lookup has returned: it looked the key up at 0, read the clock at that instant,
  -- and missed.
  pub renewed_key_missed :
      (s : System) × (t : System) × Reach s
      × Kept key bytes s t
      × (s.answered ≡ [])
      × (map outcome t.answered ≡ ((key, (0, suc (suc ttl))), none) ∷ [])
  unfolding start begin_set end_set end_get
  renewed_key_missed =
      (stored, missed, stored-Reach, goes stored-judged last missed-contents, refl, refl)
