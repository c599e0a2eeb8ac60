-- ===== src/Cache/Isolation.antt =====
-- The cache against an abstract map of bytes with expiries (cachekit/memory.go), in a program that keeps
-- and changes the slices that it passed to `Set` and got from `Get`.
use gopher_core.Common.{
  ℕ, suc, ◌<◌, ◌≡◌, ◌⊎◌, inl, inr, Bool, true, false, ◌&&◌, ◌||◌, Option, none, some, List, String,
  arith, ◌==◌, if◌then◌else◌, Bool-cases, Option-cases,
}
use gopher_core.Common.Int.{ℤ}
use gopher_core.Common.Dict.{lookup, erase, lookup-erase, lookup-insert, same_key, lookup_same}
use gopher_core.Runtime.{Err, sentinel, cache_miss}
use gopher_core.Cache.{
  Item, Store, has_expired, expiry, write_at, clone, delete_if_unchanged, evict_expired, set, get,
  delete, finish_get,
}
use gopher_core.Cache.Eviction.{same_time_refl, evict_exact, evict-heap}

-- A store, and the addresses of the slices that the program outside the cache holds.
pub record Program : Type 0 where
  pub store : Store
  pub known : ℕ → Bool

pub data Action : Type 0 where
  -- the program makes a slice, or overwrites one that it holds
  makes : List ℕ → Action
  writes : ℕ → List ℕ → Action
  -- the calls of the cache, each at its time
  sets : String → ℕ → ℤ → ℕ → Action
  gets : String → ℕ → Action
  deletes : String → Action
  evicts : ℕ → Action

abbrev pub learn : (ℕ → Bool) → ℕ → ℕ → Bool
learn known a p = a == p || known p

-- The slice of an answer of `Get` is the program's from then on.
abbrev pub learn_answer : (ℕ → Bool) → ℕ ⊎ Err → ℕ → Bool
learn_answer known (inl a) p = learn known a p
learn_answer known (inr e) p = known p

unfoldable pub act : Action → Program → Program
act (makes bytes) p = record {
  store = record (p.store) {
    heap = write_at p.store.heap p.store.next bytes;
    next = suc p.store.next;
  };
  known = learn p.known p.store.next;
}
act (writes a bytes) p =
    if p.known a
    then record p { store = record (p.store) { heap = write_at p.store.heap a bytes } }
    else p
act (sets key value duration now) p =
    if p.known value then record p { store = (set none key value duration now p.store).0 } else p
act (gets key now) p =
    let (s, answer) = get none key now (λ x. x) p.store in
    record { store = s; known = learn_answer p.known answer }
act (deletes key) p = record p { store = (delete none key p.store).0 }
act (evicts now) p = record p { store = evict_expired now (λ x. x) p.store }

-- The abstract cache.
abbrev pub View : Type 0
View = String → Option (List ℕ × Option ℤ)

abbrev pub see : (ℕ → List ℕ) → Option Item → Option (List ℕ × Option ℤ)
see heap none = none
see heap (some item) = some (heap item.slice, item.expiration)

abbrev pub view : Store → View
view s k = see s.heap (lookup k s.items)

abbrev pub gone : ℕ → Option (List ℕ × Option ℤ) → Bool
gone now none = true
gone now (some (bytes, exp)) = has_expired now exp

-- What each action does to the abstract cache.
abbrev pub spec : Action → Program → View → View
spec (makes bytes) p v = v
spec (writes a bytes) p v = v
spec (sets key value duration now) p v = λ j.
    if p.known value && same_key key j then some (p.store.heap value, expiry now duration) else v j
spec (gets key now) p v = λ j. if same_key key j && gone now (v j) then none else v j
spec (deletes key) p v = λ j. if same_key key j then none else v j
spec (evicts now) p v = λ j. if gone now (v j) then none else v j

abbrev pub Apart : ℕ → (ℕ → Bool) → Option Item → Type 0
Apart next known none = Unit
Apart next known (some item) = (item.slice < next) × (known item.slice ≡ false)

-- The cache's slices are its own.
pub record IsPrivate (p : Program) : Type 0 where
  pub apart : (k : String) → Apart p.store.next p.known (lookup k p.store.items)
  pub below : (a : ℕ) → p.known a ≡ true → a < p.store.next

-- The three ways through `Get`.
pub get_miss :
    (key : String) (now : ℕ) (s : Store)
    → lookup key s.items ≡ none
    → get none key now (λ x. x) s ≡ (s, inr (sentinel cache_miss))
unfolding get
get_miss key now s e = rw e

pub get_stale :
    (key : String) (now : ℕ) (s : Store) (item : Item)
    → lookup key s.items ≡ some item
    → has_expired now item.expiration ≡ true
    → get none key now (λ x. x) s
      ≡ (record s { items = erase key s.items }, inr (sentinel cache_miss))
unfolding get
get_stale key now s item e old =
    rw (e, finish_get) (rw (old, delete_if_unchanged, e) (rw (same_time_refl item.expiration)))

pub get_fresh :
    (key : String) (now : ℕ) (s : Store) (item : Item)
    → lookup key s.items ≡ some item
    → has_expired now item.expiration ≡ false
    → get none key now (λ x. x) s ≡ (clone item.slice s, inl s.next)
unfolding get
get_fresh key now s item e new = rw (e, finish_get) (rw new)

makes-view :
    (bytes : List ℕ) (p : Program) (k : String)
    → IsPrivate p
    → view (act (makes bytes) p).store k ≡ view p.store k
unfolding act
makes-view bytes p k v = ground (arith, v.apart k)

writes-view :
    (a : ℕ) (bytes : List ℕ) (p : Program) (k : String)
    → IsPrivate p
    → view (act (writes a bytes) p).store k ≡ view p.store k
unfolding act
writes-view a bytes p k v = ground (arith, v.apart k)

sets-view :
    (key : String) (a : ℕ) (d : ℤ) (now : ℕ) (p : Program) (k : String)
    → IsPrivate p
    → view (act (sets key a d now) p).store k ≡ spec (sets key a d now) p (view p.store) k
unfolding act set clone
sets-view key a d now p k v = ground (
  arith,
  v.apart k,
  lookup-insert key k (record { slice = p.store.next; expiration = expiry now d }) p.store.items,
)

deletes-view :
    (key : String) (p : Program) (k : String)
    → view (act (deletes key) p).store k ≡ spec (deletes key) p (view p.store) k
unfolding act delete
deletes-view key p k = ground (arith, lookup-erase key k p.store.items)

evicts-view :
    (now : ℕ) (p : Program) (k : String)
    → view (act (evicts now) p).store k ≡ spec (evicts now) p (view p.store) k
unfolding act
evicts-view now p k = ground (arith, evict_exact now k p.store, evict-heap now (λ x. x) p.store)

gets-view :
    (key : String) (now : ℕ) (p : Program) (k : String)
    → IsPrivate p
    → view (act (gets key now) p).store k ≡ spec (gets key now) p (view p.store) k
unfolding act clone
gets-view key now p k v = elim (Option-cases (lookup key p.store.items)) [
  | inl e ↦ ground (arith, get_miss key now p.store e, e, lookup_same key k p.store.items)
  | inr (item, e) ↦ elim (Bool-cases (has_expired now item.expiration)) [
    | inl old ↦ ground (
      arith,
      get_stale key now p.store item e old,
      e,
      lookup_same key k p.store.items,
      lookup-erase key k p.store.items,
    )
    | inr new ↦
        ground (
          arith,
          get_fresh key now p.store item e new,
          e,
          lookup_same key k p.store.items,
          v.apart k,
        )
  ]
]

-- From a program in which the cache's slices are its own, every action changes the cache as
-- the abstract one: the program's writes to its slices change nothing, `Set` stores the bytes that
-- the slice has then, and only expired and deleted entries go.
pub act-view :
    (a : Action) (p : Program) (k : String)
    → IsPrivate p
    → view (act a p).store k ≡ spec a p (view p.store) k
act-view (makes bytes) p k v = makes-view bytes p k v
act-view (writes a bytes) p k v = writes-view a bytes p k v
act-view (sets key a d now) p k v = sets-view key a d now p k v
act-view (gets key now) p k v = gets-view key now p k v
act-view (deletes key) p k v = deletes-view key p k
act-view (evicts now) p k v = evicts-view now p k
