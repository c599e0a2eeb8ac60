-- ===== src/Cache/Ownership.antt =====
-- The slices of the cache stay its own (cachekit/memory.go).
use gopher_core.Common.{ℕ, ◌⊎◌, inl, inr, String, arith, Bool-cases, Option-cases, subst, sym}
use gopher_core.Common.Dict.{lookup, lookup-erase, lookup-insert}
use gopher_core.Runtime.{Err}
use gopher_core.Cache.{Store, has_expired, expiry, clone, set, delete}
use gopher_core.Cache.Eviction.{evict_exact, evict-heap}
use gopher_core.Cache.Isolation.{
  Program, Action, makes, writes, sets, gets, deletes, evicts, act, IsPrivate, learn_answer,
  get_miss, get_stale, get_fresh,
}

abbrev answered : Program → Store × (ℕ ⊎ Err) → Program
answered p (s, answer) = record { store = s; known = learn_answer p.known answer }

gets-IsPrivate :
    (key : String) (now : ℕ) (p : Program) → IsPrivate p → IsPrivate (act (gets key now) p)
unfolding act clone
gets-IsPrivate key now p v = elim (Option-cases (lookup key p.store.items)) [
  | inl e ↦
      subst (λ r. IsPrivate (answered p r)) (sym (get_miss key now p.store e))
        (record { apart = v.apart; below = v.below })
  | inr (item, e) ↦ elim (Bool-cases (has_expired now item.expiration)) [
    | inl old ↦
        subst (λ r. IsPrivate (answered p r)) (sym (get_stale key now p.store item e old))
          (record {
            apart = λ k. ground (arith, v.apart k, lookup-erase key k p.store.items);
            below = v.below;
          })
    | inr new ↦
        subst (λ r. IsPrivate (answered p r)) (sym (get_fresh key now p.store item e new))
          (record {
            apart = λ k. ground (arith, v.apart k);
            below = λ b h. ground (arith, v.below b);
          })
  ]
]

-- Every action leaves the cache's slices its own.
pub act-IsPrivate : (a : Action) (p : Program) → IsPrivate p → IsPrivate (act a p)
unfolding act set clone delete
act-IsPrivate (makes bytes) p v = record {
  apart = λ k. ground (arith, v.apart k);
  below = λ a h. ground (arith, v.below a);
}
act-IsPrivate (writes a bytes) p v = record {
  apart = λ k. ground (arith, v.apart k);
  below = λ b h. ground (arith, v.below b);
}
act-IsPrivate (sets key a d now) p v = record {
  apart = λ k. ground (
    arith,
    v.apart k,
    v.below p.store.next,
    lookup-insert key k (record { slice = p.store.next; expiration = expiry now d }) p.store.items,
  );
  below = λ b h. ground (arith, v.below b);
}
act-IsPrivate (gets key now) p v = gets-IsPrivate key now p v
act-IsPrivate (deletes key) p v = record {
  apart = λ k. ground (arith, v.apart k, lookup-erase key k p.store.items);
  below = λ b h. ground (arith, v.below b);
}
act-IsPrivate (evicts now) p v = record {
  apart =
      λ k. ground (arith, v.apart k, evict_exact now k p.store, evict-heap now (λ x. x) p.store);
  below = λ b h. ground (arith, v.below b, evict-heap now (λ x. x) p.store);
}
