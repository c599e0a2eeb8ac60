-- ===== src/Cache/RoundTrip.antt =====
-- `Set` and then `Get` (cachekit/memory.go), with anything in between.
use gopher_core.Common.{
  ℕ, ◌≡◌, inl, inr, true, false, Option, none, some, List, [], ◌∷◌, String, arith, Bool-cases,
  Option-cases, ◌∙◌, All,
}
use gopher_core.Common.Int.{ℤ}
use gopher_core.Common.Dict.{lookup, same_key, same_key_refl}
use gopher_core.Cache.{Store, has_expired, expiry, clone, get, finish_get}
use gopher_core.Cache.Eviction.{is_stale, delete_keeps_fresh}
use gopher_core.Cache.Isolation.{
  Program, Action, makes, writes, sets, gets, deletes, evicts, act, View, view, spec, IsPrivate,
  act-view, get_fresh,
}
use gopher_core.Cache.Ownership.{act-IsPrivate}

pub run : List Action → Program → Program
run [] p = p
run (a ∷ as_) p = run as_ (act a p)

-- The actions that do not end the life of an entry of this key with this expiry: those that
-- store or delete other keys, and those that happen before it expires.
abbrev pub Leaves : String → Option ℤ → Action → Type 0
Leaves key exp (makes bytes) = Unit
Leaves key exp (writes a bytes) = Unit
Leaves key exp (sets k a d now) = same_key k key ≡ false
Leaves key exp (gets k now) = has_expired now exp ≡ false
Leaves key exp (deletes k) = same_key k key ≡ false
Leaves key exp (evicts now) = has_expired now exp ≡ false

spec-Leaves :
    (key : String) (exp : Option ℤ) (bytes : List ℕ) (a : Action) (p : Program) (v : View)
    → Leaves key exp a
    → v key ≡ some (bytes, exp)
    → spec a p v key ≡ some (bytes, exp)
spec-Leaves key exp bytes (makes b) p v l h = h
spec-Leaves key exp bytes (writes b c) p v l h = h
spec-Leaves key exp bytes (sets k b d now) p v l h = ground arith
spec-Leaves key exp bytes (gets k now) p v l h = ground arith
spec-Leaves key exp bytes (deletes k) p v l h = ground arith
spec-Leaves key exp bytes (evicts now) p v l h = ground arith

run-Leaves :
    (key : String) (exp : Option ℤ) (bytes : List ℕ) (as_ : List Action) (p : Program)
    → IsPrivate p
    → All (Leaves key exp) as_
    → view p.store key ≡ some (bytes, exp)
    → view (run as_ p).store key ≡ some (bytes, exp)
unfolding run
run-Leaves key exp bytes [] p v l h = h
run-Leaves key exp bytes (a ∷ as_) p v l h =
    run-Leaves key exp bytes as_ (act a p) (act-IsPrivate a p v) l.1
      (act-view a p key v ∙ spec-Leaves key exp bytes a p (view p.store) l.0 h)

get-view :
    (key : String) (now : ℕ) (s : Store) (bytes : List ℕ) (exp : Option ℤ)
    → view s key ≡ some (bytes, exp)
    → has_expired now exp ≡ false
    → ((get none key now (λ x. x) s).1 ≡ inl s.next)
      × ((get none key now (λ x. x) s).0.heap s.next ≡ bytes)
unfolding clone
get-view key now s bytes exp h new = elim (Option-cases (lookup key s.items)) [
  | inl e ↦ ground (arith, e)
  | inr (item, e) ↦ ground (arith, e, get_fresh key now s item e)
]

-- After `Set` of a slice, whatever the program does next, overwriting that slice and every slice that
-- `Get` returned included, other keys, lookups and evictions too, `Get` of the key before the entry
-- expires returns a new slice with the bytes that the slice had at `Set`.
pub get-set :
    (key : String) (a : ℕ) (d : ℤ) (now later : ℕ) (as_ : List Action) (p : Program)
    → IsPrivate p
    → p.known a ≡ true
    → All (Leaves key (expiry now d)) as_
    → has_expired later (expiry now d) ≡ false
    → let s = (run as_ (act (sets key a d now) p)).store in
      ((get none key later (λ x. x) s).1 ≡ inl s.next)
      × ((get none key later (λ x. x) s).0.heap s.next ≡ p.store.heap a)
get-set key a d now later as_ p v k l new =
    let q : Program = act (sets key a d now) p in
    get-view key later (run as_ q).store (p.store.heap a) (expiry now d)
      (run-Leaves key (expiry now d) (p.store.heap a) as_ q (act-IsPrivate (sets key a d now) p v) l
        (act-view (sets key a d now) p key v ∙ ground (arith, same_key_refl key)))
      new

-- The lazy deletion of `Get` takes no entry that has not expired at its time, whatever the other
-- goroutines do between its two critical sections, a renewal of the key included.
pub get_keeps_fresh :
    (key k : String) (now : ℕ) (others : Store → Store) (s : Store)
    → is_stale now (lookup k (others s).items) ≡ false
    → lookup k (get none key now others s).0.items ≡ lookup k (others s).items
unfolding get clone
get_keeps_fresh key k now others s fresh = elim (Option-cases (lookup key s.items)) [
  | inl e ↦ rw (e, finish_get)
  | inr (item, e) ↦ elim (Bool-cases (has_expired now item.expiration)) [
    | inl old ↦
        rw (e, finish_get)
          (rw old (delete_keeps_fresh now key k item.expiration (others s) old fresh))
    | inr new ↦ rw (e, finish_get) (rw new)
  ]
]
