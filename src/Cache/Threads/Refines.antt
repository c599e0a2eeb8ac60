-- ===== src/Cache/Threads/Refines.antt =====
-- The cache under goroutines (cachekit/memory.go) against a map that changes at single instants.
use gopher_core.Common.{
  ℕ, ◌≤◌, ◌≡◌, refl, ap, ◌∙◌, Bool, true, false, Bool-cases, inl, inr, Option, none, some, List, [],
  ◌∷◌, String, All, All-map, arith, if◌then◌else◌,
}
use gopher_core.Common.Int.{ℤ}
use gopher_core.Common.Dict.{lookup, lookup-insert, lookup-erase, same_key}
use gopher_core.Cache.{Item, Store, has_expired, clone, delete_if_unchanged, sweep}
use gopher_core.Cache.Eviction.{
  is_stale, lookup-delete, delete_keeps_fresh, delete-heap, sweep-heap,
}
use gopher_core.Cache.Isolation.{see, view}
use gopher_core.Cache.Contract.Methods.{fresh}
use gopher_core.Cache.Threads.{
  Call, storing, stale, sweeping, System, begin_set, end_set, look, begin_get, decide_as, decide,
  end_get, end_copy, delete_key, begin_evict, end_evict, Label, quiet, stores, removes, Step, ticks,
  makes, writes, sets, set_ends, gets, decides, get_ends, copies, deletes, evicts, evict_ends,
  Reach,
}
use gopher_core.Cache.Threads.Safe.{HasExpired, HasExpired-later, IsSafe, dropped}
use gopher_core.Cache.Threads.Steps.{Reach-IsSafe}

-- What the cache holds for a key at an instant
abbrev pub Contents : Type 0
Contents = ℕ → String → Option (List ℕ)

abbrev pub contents : System → Contents
contents s t k = fresh t (view s.store k)

-- The map: an entry is there until it expires, and changes by a `Set` or a `Delete` only.
abbrev pub apply : Label → Contents → Contents
apply quiet c t k = c t k
apply (stores key bytes exp) c t k = if same_key key k then fresh t (some (bytes, exp)) else c t k
apply (removes key) c t k = if same_key key k then none else c t k

stale-fresh :
    (t : ℕ) (heap : ℕ → List ℕ) (o : Option Item)
    → is_stale t o ≡ true
    → fresh t (see heap o) ≡ none
stale-fresh t heap none h = refl
stale-fresh t heap (some item) h = rw h

-- A deletion by an expiry that is over changes no contents.
delete-fresh :
    (t : ℕ) (heap : ℕ → List ℕ) (key k : String) (exp : Option ℤ) (s : Store)
    → HasExpired t exp
    → fresh t (see heap (lookup k (delete_if_unchanged key exp s).items))
      ≡ fresh t (see heap (lookup k s.items))
delete-fresh t heap key k exp s over = elim (Bool-cases (is_stale t (lookup k s.items))) [
  | inl old ↦ ground (arith, lookup-delete key k exp s, stale-fresh t heap (lookup k s.items) old)
  | inr new ↦ ap (λ o. fresh t (see heap o)) (delete_keeps_fresh t key k exp s over new)
]

sweep-fresh :
    (t : ℕ) (heap : ℕ → List ℕ) (es : List (String × Option ℤ)) (k : String) (s : Store)
    → All (λ e. HasExpired t e.1) es
    → fresh t (see heap (lookup k (sweep es s).items)) ≡ fresh t (see heap (lookup k s.items))
unfolding sweep
sweep-fresh t heap [] k s over = refl
sweep-fresh t heap ((key, exp) ∷ es) k s over =
    sweep-fresh t heap es k (delete_if_unchanged key exp s) over.1
    ∙ delete-fresh t heap key k exp s over.0

look-store : (key : String) (o : Option Item) (s : System) → (look key o s).store ≡ s.store
look-store key none s = refl
look-store key (some item) s = refl

decide_as-contents :
    (old : Bool) (before : List Call) (key : String) (item : Item) (bytes : List ℕ) (since : ℕ)
    (after : List Call) (s : System) (t : ℕ) (k : String)
    → contents (decide_as old before key item bytes since after s) t k ≡ contents s t k
decide_as-contents true before key item bytes since after s t k = refl
decide_as-contents false before key item bytes since after s t k = refl

step-contents :
    {s t : System} {l : Label} (time : ℕ) (k : String)
    → IsSafe s
    → Step s l t
    → t.clock ≤ time
    → contents t time k ≡ apply l (contents s) time k
unfolding begin_set clone end_set begin_get decide end_get end_copy delete_key begin_evict end_evict
step-contents time k h (ticks s now later) le = refl
step-contents time k h (makes s bytes) le = ground (arith, h.apart k)
step-contents time k h (writes s a bytes e) le = ground (arith, h.apart k)
step-contents time k h (sets s key value d now e le') le = ground (arith, h.apart k)
step-contents time k h (set_ends s before key item bytes after e) le = ground (
  arith,
  lookup-insert key k item s.store.items,
  (dropped s before (storing key item bytes) after h e).0,
)
step-contents time k h (gets s key) le =
    ap (λ c. fresh time (view c k)) (look-store key (lookup key s.store.items) s)
step-contents time k h (decides s before key item bytes since after e) le =
    decide_as-contents (has_expired s.clock item.expiration) before key item bytes since after s
      time k
step-contents time k h (get_ends s before key exp bytes since decided after e) le =
    let (early, over) = (dropped s before (stale key exp bytes since decided) after h e).0 in
    ap (λ f. fresh time (see f (lookup k (delete_if_unchanged key exp s.store).items)))
      (delete-heap key exp s.store).0
    ∙ delete-fresh time s.store.heap key k exp s.store
        (HasExpired-later decided time exp (omega (arith, early, le)) over)
step-contents time k h (copies s before key item bytes since decided after e) le =
    ground (arith, h.apart k)
step-contents time k h (deletes s key) le = ground (arith, lookup-erase key k s.store.items)
step-contents time k h (evicts s now le') le = refl
step-contents time k h (evict_ends s before es after e) le =
    ap (λ f. fresh time (see f (lookup k (sweep es s.store).items))) (sweep-heap es s.store).0
    ∙ sweep-fresh time s.store.heap es k s.store (
        All-map _ _ es (λ e. HasExpired-later s.clock time e.1 le)
          (dropped s before (sweeping es) after h e).0)

-- In every reachable system, whatever the goroutines are in the middle of, a step leaves the contents from
-- then on as they are, unless it is the critical section of a `Set`, which enters the bytes that its
-- slice had when the call copied it, or of a `Delete`: lookups and evictions take away only what has
-- expired, and no write of the program to a slice of its own shows.
pub step_refines :
    {s t : System} {l : Label} (time : ℕ) (k : String)
    → Reach s
    → Step s l t
    → t.clock ≤ time
    → contents t time k ≡ apply l (contents s) time k
step_refines time k r st le = step-contents time k (Reach-IsSafe r) st le
