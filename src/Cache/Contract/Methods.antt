-- ===== src/Cache/Contract/Methods.antt =====
-- The methods of the in-memory cache (cachekit/memory.go) on the bytes of slices: a program makes a slice of
-- the bytes for `Set`, and reads the slice that `Get` returns.
use gopher_core.Common.{
  ℕ, ◌≤◌, ◌≡◌, refl, sym, ◌&&◌, ◌⊎◌, inl, inr, Bool, true, false, Option, none, some, List, String,
  if◌then◌else◌, arith, Bool-cases,
}
use gopher_core.Common.Int.{ℤ}
use gopher_core.Runtime.{Err, Ctx}
use gopher_core.Cache.{Store, has_expired, clone, set, get, delete}
use gopher_core.Cache.Isolation.{Program, makes, sets, deletes, act, view, learn, gone}
use gopher_core.Cache.Contract.{CacheOps}

-- What is left of an entry at an instant
abbrev pub fresh : ℕ → Option (List ℕ × Option ℤ) → Option (List ℕ)
fresh t none = none
fresh t (some (bytes, exp)) = if has_expired t exp then none else some bytes

abbrev pub contents : Program → ℕ → String → Option (List ℕ)
contents p t k = fresh t (view p.store k)

abbrev pub with_store : Program → Store × Option Err → Program × Option Err
with_store p (s, err) = (record p { store = s }, err)

-- The bytes of the slice that `Get` returned, which the program knows from then on
abbrev pub read_answer : Program → Store × (ℕ ⊎ Err) → Program × (List ℕ ⊎ Err)
read_answer p (s, inl a) = (record { store = s; known = learn p.known a }, inl (s.heap a))
read_answer p (s, inr e) = (record { store = s; known = p.known }, inr e)

abbrev pub memory_ops : CacheOps Program
memory_ops = record {
  set = λ ctx key value d now p.
      with_store (act (makes value) p)
        (set (ctx now) key p.store.next d now (act (makes value) p).store);
  get = λ ctx key now p. read_answer p (get (ctx now) key now (λ s. s) p.store);
  delete = λ ctx key now p. with_store p (delete (ctx now) key p.store);
}

-- With a context that lives, the methods are the program's actions.
pub memory_set-live :
    (ctx : Ctx) (key : String) (value : List ℕ) (d : ℤ) (now : ℕ) (p : Program)
    → ctx now ≡ none
    → memory_ops.set ctx key value d now p
      ≡ (act (sets key p.store.next d now) (act (makes value) p), none)
unfolding act set clone
memory_set-live ctx key value d now p live = ground (arith, live)

pub memory_delete-live :
    (ctx : Ctx) (key : String) (now : ℕ) (p : Program)
    → ctx now ≡ none
    → memory_ops.delete ctx key now p ≡ (act (deletes key) p, none)
unfolding act delete
memory_delete-live ctx key now p live = rw live

fresh-later :
    (now t : ℕ) (o : Option (List ℕ × Option ℤ)) → now ≤ t → gone now o ≡ true → fresh t o ≡ none
fresh-later now t none h g = refl
fresh-later now t (some (bytes, none)) h g = ground (arith, g)
fresh-later now t (some (bytes, some exp)) h g = ground (arith, g)

-- What had expired is none of the contents later.
pub fresh-without :
    (now t : ℕ) (hit : Bool) (o : Option (List ℕ × Option ℤ))
    → now ≤ t
    → fresh t (if hit && gone now o then none else o) ≡ fresh t o
fresh-without now t false o h = refl
fresh-without now t true o h = elim (Bool-cases (gone now o)) [
  | inl g ↦ rw g (sym (fresh-later now t o h g))
  | inr g ↦ rw g
]

-- With a context that has ended, they give its error, and the cache stays as it is.
pub memory_set-ended :
    (ctx : Ctx) (key : String) (value : List ℕ) (d : ℤ) (now : ℕ) (p : Program) (e : Err)
    → ctx now ≡ some e
    → memory_ops.set ctx key value d now p ≡ (act (makes value) p, some e)
unfolding act set
memory_set-ended ctx key value d now p e ended = rw ended

pub memory_get-live :
    (ctx : Ctx) (key : String) (now : ℕ) (p : Program)
    → ctx now ≡ none
    → memory_ops.get ctx key now p ≡ read_answer p (get none key now (λ s. s) p.store)
memory_get-live ctx key now p live = rw live

pub memory_get-ended :
    (ctx : Ctx) (key : String) (now : ℕ) (p : Program) (e : Err)
    → ctx now ≡ some e
    → memory_ops.get ctx key now p ≡ (p, inr e)
unfolding get
memory_get-ended ctx key now p e ended = rw ended

pub memory_delete-ended :
    (ctx : Ctx) (key : String) (now : ℕ) (p : Program) (e : Err)
    → ctx now ≡ some e
    → memory_ops.delete ctx key now p ≡ (p, some e)
unfolding delete
memory_delete-ended ctx key now p e ended = rw ended
