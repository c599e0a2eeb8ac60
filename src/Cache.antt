-- ===== src/Cache.antt =====
-- cachekit/memory.go: the in-memory cache over an explicit heap of byte slices, so that what the copies
-- of `Set` and `Get` are for can be stated. An instant is a number of nanoseconds; an expiry is none for
-- the zero `time.Time`, and can lie before the program's start, as `Set` takes negative durations.
pub mod Eviction
pub mod Isolation
pub mod Ownership
pub mod RoundTrip
pub mod Lifecycle
pub mod Redis
pub mod Contract
pub mod Threads
mod Tests
use gopher_core.Common.{
  ℕ, suc, ◌⊎◌, inl, inr, Bool, true, false, ◌&&◌, Option, none, some, List, [], ◌∷◌, String, ◌==◌,
  if◌then◌else◌,
}
use gopher_core.Common.Int.{ℤ, pos, ◌+ℤ◌, ltb_ℤ, leb_ℤ}
use gopher_core.Common.Dict.{lookup, insert, erase}
use gopher_core.Runtime.{Err, sentinel, cache_miss}

-- `cacheItem`: `slice` is the address of the bytes
pub record Item : Type 0 where
  pub slice : ℕ
  pub expiration : Option ℤ

-- `InMemoryCache.items`, with the bytes of every slice of the program; addresses from `next` on are free.
pub record Store : Type 0 where
  pub items : List (String × Item)
  pub heap : ℕ → List ℕ
  pub next : ℕ

-- `!exp.IsZero() && now.After(exp)`
abbrev pub has_expired : ℕ → Option ℤ → Bool
has_expired now none = false
has_expired now (some t) = ltb_ℤ t (pos now)

-- `Time.Equal`
abbrev pub same_time : Option ℤ → Option ℤ → Bool
same_time none none = true
same_time (some a) (some b) = leb_ℤ a b && leb_ℤ b a
same_time _ _ = false

abbrev pub write_at : (ℕ → List ℕ) → ℕ → List ℕ → ℕ → List ℕ
write_at heap a bytes p = if a == p then bytes else heap p

-- `c := make([]byte, len(v)); copy(c, v)`: the copy is at the store's old `next`
pub clone : ℕ → Store → Store
clone slice s = record s { heap = write_at s.heap s.next (s.heap slice); next = suc s.next }

-- The instant that `Set` stores for a duration
pub expiry : ℕ → ℤ → Option ℤ
expiry now d = if leb_ℤ d (pos 0) && leb_ℤ (pos 0) d then none else some (pos now +ℤ d)

-- `Set`, with what `ctx.Err()` returns
pub set : Option Err → String → ℕ → ℤ → ℕ → Store → Store × Option Err
unfolding clone expiry
set (some e) key value duration now s = (s, some e)
set none key value duration now s =
    let item : Item = record { slice = s.next; expiration = expiry now duration } in
    let s' : Store = clone value s in (record s' { items = insert key item s'.items }, none)

-- `if v, exists := c.items[key]; exists && v.expiration.Equal(exp) { delete(c.items, key) }`
pub delete_if_unchanged : String → Option ℤ → Store → Store
delete_if_unchanged key exp s = elim (lookup key s.items) [
  | none ↦ s
  | some item ↦ if same_time item.expiration exp then record s { items = erase key s.items } else s
]

-- `Get` after its first critical section found this; `others` is what the other goroutines do to the
-- store before the rest of it runs
pub finish_get : String → ℕ → (others : Store → Store) → Option Item → Store → Store × (ℕ ⊎ Err)
unfolding delete_if_unchanged clone
finish_get key now others none s = (others s, inr (sentinel cache_miss))
finish_get key now others (some item) s =
    if has_expired now item.expiration
    then (delete_if_unchanged key item.expiration (others s), inr (sentinel cache_miss))
    else (clone item.slice (others s), inl (others s).next)

-- `Get`: the address of the bytes, or an error
pub get : Option Err → String → ℕ → (others : Store → Store) → Store → Store × (ℕ ⊎ Err)
unfolding finish_get
get (some e) key now others s = (s, inr e)
get none key now others s = finish_get key now others (lookup key s.items) s

-- `Delete`
pub delete : Option Err → String → Store → Store × Option Err
delete (some e) key s = (s, some e)
delete none key s = (record s { items = erase key s.items }, none)

-- Phase 1 of `evictExpired`: the expired keys with their expiries
pub scan : ℕ → List (String × Item) → List (String × Option ℤ)
scan now [] = []
scan now ((key, item) ∷ items) =
    if has_expired now item.expiration
    then (key, item.expiration) ∷ scan now items
    else scan now items

-- Phase 2: deletion under the lock
pub sweep : List (String × Option ℤ) → Store → Store
unfolding delete_if_unchanged
sweep [] s = s
sweep ((key, exp) ∷ rest) s = sweep rest (delete_if_unchanged key exp s)

-- `evictExpired`; `others` is what happens between the phases
pub evict_expired : ℕ → (others : Store → Store) → Store → Store
unfolding scan sweep
evict_expired now others s = sweep (scan now s.items) (others s)
