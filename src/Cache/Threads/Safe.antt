-- ===== src/Cache/Threads/Safe.antt =====
-- The invariant of the cache under goroutines (cachekit/memory.go): the slices that it holds, or that a
-- call under way is to store or to copy, are its own.
use gopher_core.Common.{
  ℕ, ◌≤◌, ◌<◌, ◌≡◌, ◌∙◌, sym, subst, ap, Bool, true, false, Option, none, some, List, [], ◌∷◌, ◌++◌,
  String, All, All-map, All-drop_middle, All-head_of_append, arith,
}
use gopher_core.Common.Int.{ℤ}
use gopher_core.Common.Dict.{lookup}
use gopher_core.Cache.{Item, Store, has_expired, delete_if_unchanged, scan, sweep}
use gopher_core.Cache.Eviction.{lookup-delete}
use gopher_core.Cache.Isolation.{Apart}
use gopher_core.Cache.Threads.{Call, storing, found, stale, copying, sweeping, System, start}

-- A slice of the cache that holds these bytes
abbrev pub Holds : Store → (ℕ → Bool) → ℕ → List ℕ → Type 0
Holds s known a bytes = (a < s.next) × (known a ≡ false) × (s.heap a ≡ bytes)

abbrev pub HasExpired : ℕ → Option ℤ → Type 0
HasExpired now exp = has_expired now exp ≡ true

abbrev pub Flies : Store → ℕ → (ℕ → Bool) → Call → Type 0
Flies s clock known (storing key item bytes) = Holds s known item.slice bytes
Flies s clock known (found key item bytes since) = Holds s known item.slice bytes
Flies s clock known (stale key exp bytes since decided) = (decided ≤ clock) × HasExpired decided exp
Flies s clock known (copying key item bytes since decided) =
    Holds s known item.slice bytes × (has_expired decided item.expiration ≡ false)
Flies s clock known (sweeping es) = All (λ e. HasExpired clock e.1) es

pub record IsSafe (s : System) : Type 0 where
  pub apart : (k : String) → Apart s.store.next s.known (lookup k s.store.items)
  pub below : (a : ℕ) → s.known a ≡ true → a < s.store.next
  pub flying : All (Flies s.store s.clock s.known) s.calls

pub HasExpired-later :
    (now later : ℕ) (exp : Option ℤ) → now ≤ later → HasExpired now exp → HasExpired later exp
HasExpired-later now later none h e = e
HasExpired-later now later (some t) h e = ground (arith, e)

pub scan-HasExpired :
    (now : ℕ) (items : List (String × Item)) → All (λ e. HasExpired now e.1) (scan now items)
unfolding scan
scan-HasExpired now [] = tt
scan-HasExpired now ((key, item) ∷ items) = ground (arith, scan-HasExpired now items)

-- The slices that are there stay, while the heap grows, the program learns of new slices only, and
-- writes to those that it knows.
pub record Grows (s t : System) : Type 0 where
  pub later : s.clock ≤ t.clock
  pub wider : s.store.next ≤ t.store.next
  pub same_heap : (a : ℕ) → a < s.store.next → s.known a ≡ false → t.store.heap a ≡ s.store.heap a
  pub same_known : (a : ℕ) → a < s.store.next → s.known a ≡ false → t.known a ≡ false

Flies-Grows :
    (s t : System)
    → Grows s t
    → (c : Call) → Flies s.store s.clock s.known c
    → Flies t.store t.clock t.known c
Flies-Grows s t g (storing key item bytes) h =
    ground (arith, g.same_heap item.slice, g.same_known item.slice)
Flies-Grows s t g (found key item bytes since) h =
    ground (arith, g.same_heap item.slice, g.same_known item.slice)
Flies-Grows s t g (stale key exp bytes since decided) h = (omega arith, h.1)
Flies-Grows s t g (copying key item bytes since decided) h =
    (ground (arith, g.same_heap item.slice, g.same_known item.slice), h.1)
Flies-Grows s t g (sweeping es) h =
    All-map _ _ es (λ e. HasExpired-later s.clock t.clock e.1 g.later) h

pub flying-Grows :
    (s t : System) (cs : List Call)
    → Grows s t
    → All (Flies s.store s.clock s.known) cs
    → All (Flies t.store t.clock t.known) cs
flying-Grows s t cs g h = All-map _ _ cs (Flies-Grows s t g) h

pub start-IsSafe : IsSafe (start (record { items = []; heap = λ a. []; next = 0 }))
unfolding start lookup
start-IsSafe = record { apart = λ k. tt; below = λ a h. ground (arith, h); flying = tt }

-- Conditional deletions leave an entry or take it away.
pub delete-Apart :
    (key k : String) (exp : Option ℤ) (free : ℕ) (known : ℕ → Bool) (s : Store)
    → Apart free known (lookup k s.items)
    → Apart free known (lookup k (delete_if_unchanged key exp s).items)
delete-Apart key k exp free known s h =
    subst (Apart free known) (sym (lookup-delete key k exp s)) (ground arith)

pub sweep-Apart :
    (es : List (String × Option ℤ)) (k : String) (free : ℕ) (known : ℕ → Bool) (s : Store)
    → Apart free known (lookup k s.items)
    → Apart free known (lookup k (sweep es s).items)
unfolding sweep
sweep-Apart [] k free known s h = h
sweep-Apart ((key, exp) ∷ es) k free known s h =
    sweep-Apart es k free known (delete_if_unchanged key exp s)
      (delete-Apart key k exp free known s h)

-- A step that only takes entries away
pub shrunk :
    (s t : System)
    → t.clock ≡ s.clock
    → t.known ≡ s.known
    → (t.store.heap ≡ s.store.heap) × (t.store.next ≡ s.store.next)
    → Grows s t
shrunk s t c k (h, n) = record {
  later = omega (arith, c);
  wider = omega (arith, n);
  same_heap = λ a lt p. ap (λ f. f a) h;
  same_known = λ a lt p. ap (λ f. f a) k ∙ p;
}

-- The calls without one that has ended
pub dropped :
    (s : System) (before : List Call) (c : Call) (after : List Call)
    → IsSafe s
    → s.calls ≡ before ++ c ∷ after
    → Flies s.store s.clock s.known c × All (Flies s.store s.clock s.known) (before ++ after)
dropped s before c after h e =
    let f : All (Flies s.store s.clock s.known) (before ++ c ∷ after) = subst (All _) e h.flying in
    (All-head_of_append _ before c after f, All-drop_middle _ before c after f)
