-- ===== src/Cache/Threads.antt =====
-- The in-memory cache (cachekit/memory.go) under goroutines that interleave between critical sections. A call
-- keeps what it has read, with the bytes at that time for the statements; the calls that have a
-- dead context do nothing and are left out.
pub mod Safe
pub mod Steps
pub mod Refines
pub mod Answers
pub mod Missed
mod Tests
use gopher_core.Common.{
  ℕ, suc, ◌≤◌, ◌≡◌, Bool, true, false, Option, none, some, List, [], ◌∷◌, ◌++◌, String,
}
use gopher_core.Common.Int.{ℤ}
use gopher_core.Common.Dict.{lookup, insert, erase}
use gopher_core.Cache.{
  Item, Store, has_expired, expiry, write_at, clone, delete_if_unchanged, scan, sweep,
}
use gopher_core.Cache.Isolation.{learn}

-- A call between two of its critical sections
pub data Call : Type 0 where
  -- `Set`, with its copy made
  storing : (key : String) → Item → (bytes : List ℕ) → Call
  -- `Get`, with the item that it found at the time `since`
  found : (key : String) → Item → (bytes : List ℕ) → (since : ℕ) → Call
  -- `Get`, whose item had expired at the time `decided`
  stale : (key : String) → Option ℤ → (bytes : List ℕ) → (since decided : ℕ) → Call
  -- `Get`, whose item had not
  copying : (key : String) → Item → (bytes : List ℕ) → (since decided : ℕ) → Call
  -- `evictExpired` between its phases
  sweeping : List (String × Option ℤ) → Call

-- A `Get` that has returned: when it looked the key up and what was there, when it read the clock (for a
-- key that is not there it does not), and the bytes that it returned, none for a miss
pub record Answered : Type 0 where
  pub key : String
  pub since : ℕ
  pub decided : ℕ
  pub seen : Option (List ℕ × Option ℤ)
  pub answer : Option (List ℕ)

-- `known` are the slices that the program outside the cache holds.
pub record System : Type 0 where
  pub store : Store
  pub clock : ℕ
  pub known : ℕ → Bool
  pub calls : List Call
  pub answered : List Answered

unfoldable pub start : Store → System
start s = record { store = s; clock = 0; known = λ a. false; calls = []; answered = [] }

-- `Set` before its critical section: the expiry, by a clock that it read at `now`, and the copy
unfoldable pub begin_set : String → ℕ → ℤ → (now : ℕ) → System → System
unfolding clone expiry
begin_set key value duration now s = record s {
  store = clone value s.store;
  calls =
      storing key (record { slice = s.store.next; expiration = expiry now duration })
        (s.store.heap value)
      ∷ s.calls;
}

unfoldable pub end_set : List Call → String → Item → List Call → System → System
end_set before key item after s = record s {
  store = record (s.store) { items = insert key item s.store.items };
  calls = before ++ after;
}

-- The first critical section of `Get`
abbrev pub look : String → Option Item → System → System
look key none s = record s {
  answered =
      record { key = key; since = s.clock; decided = s.clock; seen = none; answer = none }
      ∷ s.answered;
}
look key (some item) s = record s {
  calls = found key item (s.store.heap item.slice) s.clock ∷ s.calls;
}

unfoldable pub begin_get : String → System → System
unfolding lookup
begin_get key s = look key (lookup key s.store.items) s

-- `Get` after that: the expiry against the clock
abbrev pub decide_as : Bool → List Call → String → Item → List ℕ → ℕ → List Call → System → System
decide_as true before key item bytes since after s = record s {
  calls = before ++ stale key item.expiration bytes since s.clock ∷ after;
}
decide_as false before key item bytes since after s = record s {
  calls = before ++ copying key item bytes since s.clock ∷ after;
}

unfoldable pub decide : List Call → String → Item → List ℕ → ℕ → List Call → System → System
decide before key item bytes since after s =
    decide_as (has_expired s.clock item.expiration) before key item bytes since after s

-- The copy that `Get` returns
unfoldable pub end_copy :
    List Call → String → Item → List ℕ → (since decided : ℕ) → List Call → System → System
unfolding clone
end_copy before key item bytes since decided after s = record s {
  store = clone item.slice s.store;
  known = learn s.known s.store.next;
  calls = before ++ after;
  answered =
      record {
        key = key;
        since = since;
        decided = decided;
        seen = some (bytes, item.expiration);
        answer = some ((clone item.slice s.store).heap s.store.next);
      }
      ∷ s.answered;
}

-- The second critical section of a `Get` that found its item expired
unfoldable pub end_get :
    List Call → String → Option ℤ → List ℕ → (since decided : ℕ) → List Call → System → System
unfolding delete_if_unchanged
end_get before key exp bytes since decided after s = record s {
  store = delete_if_unchanged key exp s.store;
  calls = before ++ after;
  answered =
      record {
        key = key;
        since = since;
        decided = decided;
        seen = some (bytes, exp);
        answer = none;
      }
      ∷ s.answered;
}

unfoldable pub delete_key : String → System → System
delete_key key s = record s { store = record (s.store) { items = erase key s.store.items } }

-- The two phases of `evictExpired`, whose clock it read at `now`
unfoldable pub begin_evict : (now : ℕ) → System → System
unfolding scan
begin_evict now s = record s { calls = sweeping (scan now s.store.items) ∷ s.calls }

unfoldable pub end_evict : List Call → List (String × Option ℤ) → List Call → System → System
unfolding sweep
end_evict before es after s = record s { store = sweep es s.store; calls = before ++ after }

-- What a step does to the contents of the cache
pub data Label : Type 0 where
  quiet : Label
  stores : String → List ℕ → Option ℤ → Label
  removes : String → Label

abbrev pub tick : ℕ → System → System
tick now s = record s { clock = now }

-- The program makes a slice, or overwrites one that it holds.
abbrev pub make_slice : List ℕ → System → System
make_slice bytes s = record s {
  store = record (s.store) {
    heap = write_at s.store.heap s.store.next bytes;
    next = suc s.store.next;
  };
  known = learn s.known s.store.next;
}

abbrev pub write_slice : ℕ → List ℕ → System → System
write_slice a bytes s = record s {
  store = record (s.store) { heap = write_at s.store.heap a bytes };
}

pub data Step : System → Label → System → Type 0 where
  ticks : (s : System) (now : ℕ) → s.clock ≤ now → Step s quiet (tick now s)
  makes : (s : System) (bytes : List ℕ) → Step s quiet (make_slice bytes s)
  writes :
      (s : System) (a : ℕ) (bytes : List ℕ)
      → s.known a ≡ true
      → Step s quiet (write_slice a bytes s)
  sets :
      (s : System) (key : String) (value : ℕ) (duration : ℤ) (now : ℕ)
      → s.known value ≡ true
      → now ≤ s.clock
      → Step s quiet (begin_set key value duration now s)
  set_ends :
      (s : System) (before : List Call) (key : String) (item : Item) (bytes : List ℕ)
      (after : List Call)
      → s.calls ≡ before ++ storing key item bytes ∷ after
      → Step s (stores key bytes item.expiration) (end_set before key item after s)
  gets : (s : System) (key : String) → Step s quiet (begin_get key s)
  decides :
      (s : System) (before : List Call) (key : String) (item : Item) (bytes : List ℕ) (since : ℕ)
      (after : List Call)
      → s.calls ≡ before ++ found key item bytes since ∷ after
      → Step s quiet (decide before key item bytes since after s)
  get_ends :
      (s : System) (before : List Call) (key : String) (exp : Option ℤ) (bytes : List ℕ)
      (since decided : ℕ) (after : List Call)
      → s.calls ≡ before ++ stale key exp bytes since decided ∷ after
      → Step s quiet (end_get before key exp bytes since decided after s)
  copies :
      (s : System) (before : List Call) (key : String) (item : Item) (bytes : List ℕ)
      (since decided : ℕ) (after : List Call)
      → s.calls ≡ before ++ copying key item bytes since decided ∷ after
      → Step s quiet (end_copy before key item bytes since decided after s)
  deletes : (s : System) (key : String) → Step s (removes key) (delete_key key s)
  evicts : (s : System) (now : ℕ) → now ≤ s.clock → Step s quiet (begin_evict now s)
  evict_ends :
      (s : System) (before : List Call) (es : List (String × Option ℤ)) (after : List Call)
      → s.calls ≡ before ++ sweeping es ∷ after
      → Step s quiet (end_evict before es after s)

-- The systems that a new cache can come to
pub data Reach : System → Type 0 where
  here : Reach (start (record { items = []; heap = λ a. []; next = 0 }))
  next : {s t : System} {l : Label} → Reach s → Step s l t → Reach t
