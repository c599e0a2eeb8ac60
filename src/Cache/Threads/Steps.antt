-- ===== src/Cache/Threads/Steps.antt =====
-- Every step of goroutines on the cache (cachekit/memory.go) keeps its slices its own.
use gopher_core.Common.{
  ℕ, ◌≡◌, refl, sym, subst, ap, Bool, true, false, Option, none, some, List, ◌∷◌, ◌++◌, String, All,
  All-map, All-head_of_append, All-replace_middle, arith,
}
use gopher_core.Common.Dict.{lookup, lookup-insert, lookup-erase}
use gopher_core.Cache.{Item, has_expired, clone, delete_if_unchanged, scan, sweep}
use gopher_core.Cache.Eviction.{delete-heap, sweep-heap}
use gopher_core.Cache.Isolation.{Apart}
use gopher_core.Cache.Threads.{
  Call, storing, found, System, tick, make_slice, write_slice, begin_set, end_set, look, begin_get,
  decide_as, decide, end_get, end_copy, delete_key, begin_evict, end_evict, Label, Step, ticks,
  makes, writes, sets, set_ends, gets, decides, get_ends, copies, deletes, evicts, evict_ends,
  Reach, here, next,
}
use gopher_core.Cache.Threads.Safe.{
  HasExpired-later, IsSafe, scan-HasExpired, flying-Grows, start-IsSafe, delete-Apart, sweep-Apart,
  shrunk, dropped,
}

look-IsSafe :
    (key : String) (o : Option Item) (s : System)
    → lookup key s.store.items ≡ o
    → IsSafe s
    → IsSafe (look key o s)
look-IsSafe key none s e h = record { apart = h.apart; below = h.below; flying = h.flying }
look-IsSafe key (some item) s e h = record {
  apart = h.apart;
  below = h.below;
  flying = (ground (arith, h.apart key, e), h.flying);
}

decide_as-IsSafe :
    (old : Bool) (before : List Call) (key : String) (item : Item) (bytes : List ℕ) (since : ℕ)
    (after : List Call) (s : System)
    → has_expired s.clock item.expiration ≡ old
    → IsSafe s
    → s.calls ≡ before ++ found key item bytes since ∷ after
    → IsSafe (decide_as old before key item bytes since after s)
decide_as-IsSafe true before key item bytes since after s old h e = record {
  apart = h.apart;
  below = h.below;
  flying =
      All-replace_middle _ before (found key item bytes since) _ after (subst (All _) e h.flying)
        (omega arith, old);
}
decide_as-IsSafe false before key item bytes since after s new h e = record {
  apart = h.apart;
  below = h.below;
  flying =
      All-replace_middle _ before (found key item bytes since) _ after (subst (All _) e h.flying) (
        All-head_of_append _ before (found key item bytes since) after (subst (All _) e h.flying),
        new,
      );
}

pub Step-IsSafe : {s t : System} {l : Label} → IsSafe s → Step s l t → IsSafe t
unfolding clone end_set delete_key begin_evict end_evict begin_set begin_get end_get decide end_copy
Step-IsSafe h (ticks s now later) = record {
  apart = h.apart;
  below = h.below;
  flying =
      flying-Grows s (tick now s) s.calls
        (record {
          later = later;
          wider = omega arith;
          same_heap = λ a b c. refl;
          same_known = λ a b c. c;
        })
        h.flying;
}
Step-IsSafe h (makes s bytes) = record {
  apart = λ k. ground (arith, h.apart k);
  below = λ a e. ground (arith, h.below a);
  flying =
      flying-Grows s (make_slice bytes s) s.calls
        (record {
          later = omega arith;
          wider = omega arith;
          same_heap = λ a b c. ground arith;
          same_known = λ a b c. ground arith;
        })
        h.flying;
}
Step-IsSafe h (writes s a bytes e) = record {
  apart = h.apart;
  below = h.below;
  flying =
      flying-Grows s (write_slice a bytes s) s.calls
        (record {
          later = omega arith;
          wider = omega arith;
          same_heap = λ b lt c. ground (arith, ap s.known);
          same_known = λ b lt c. c;
        })
        h.flying;
}
Step-IsSafe h (sets s key value d now e le) = record {
  apart = λ k. ground (arith, h.apart k);
  below = λ a e. ground (arith, h.below a);
  flying = (
    ground (arith, h.below s.store.next),
    flying-Grows s (begin_set key value d now s) s.calls
        (record {
          later = omega arith;
          wider = omega arith;
          same_heap = λ a b c. ground arith;
          same_known = λ a b c. c;
        })
        h.flying,
  );
}
Step-IsSafe h (set_ends s before key item bytes after e) =
    let (own, rest) = dropped s before (storing key item bytes) after h e in
    record {
      apart = λ k. ground (arith, h.apart k, lookup-insert key k item s.store.items);
      below = h.below;
      flying = rest;
    }
Step-IsSafe h (gets s key) = look-IsSafe key (lookup key s.store.items) s refl h
Step-IsSafe h (decides s before key item bytes since after e) =
    decide_as-IsSafe (has_expired s.clock item.expiration) before key item bytes since after s refl
      h e
Step-IsSafe h (get_ends s before key exp bytes since decided after e) = record {
  apart = λ k.
      subst (λ n. Apart n s.known (lookup k (delete_if_unchanged key exp s.store).items))
        (sym (delete-heap key exp s.store).1)
        (delete-Apart key k exp s.store.next s.known s.store (h.apart k));
  below = λ a g. ground (arith, h.below a, delete-heap key exp s.store);
  flying =
      flying-Grows s (end_get before key exp bytes since decided after s) (before ++ after)
        (shrunk s _ refl refl (delete-heap key exp s.store)) (dropped s before _ after h e).1;
}
Step-IsSafe h (copies s before key item bytes since decided after e) = record {
  apart = λ k. ground (arith, h.apart k);
  below = λ a g. ground (arith, h.below a);
  flying =
      flying-Grows s (end_copy before key item bytes since decided after s) (before ++ after)
        (record {
          later = omega arith;
          wider = omega arith;
          same_heap = λ a b c. ground arith;
          same_known = λ a b c. ground arith;
        })
        (dropped s before _ after h e).1;
}
Step-IsSafe h (deletes s key) = record {
  apart = λ k. ground (arith, h.apart k, lookup-erase key k s.store.items);
  below = h.below;
  flying = h.flying;
}
Step-IsSafe h (evicts s now le) = record {
  apart = h.apart;
  below = h.below;
  flying = (
    All-map _ _ (scan now s.store.items) (λ e. HasExpired-later now s.clock e.1 le)
        (scan-HasExpired now s.store.items),
    h.flying,
  );
}
Step-IsSafe h (evict_ends s before es after e) = record {
  apart = λ k.
      subst (λ n. Apart n s.known (lookup k (sweep es s.store).items))
        (sym (sweep-heap es s.store).1) (sweep-Apart es k s.store.next s.known s.store (h.apart k));
  below = λ a g. ground (arith, h.below a, sweep-heap es s.store);
  flying =
      flying-Grows s (end_evict before es after s) (before ++ after)
        (shrunk s _ refl refl (sweep-heap es s.store)) (dropped s before _ after h e).1;
}

pub Reach-IsSafe : {s : System} → Reach s → IsSafe s
Reach-IsSafe here = start-IsSafe
Reach-IsSafe (next r st) = Step-IsSafe (Reach-IsSafe r) st
