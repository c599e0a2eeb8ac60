-- ===== src/Cache/Contract/Memory.antt =====
-- The in-memory cache (cachekit/memory.go) as a `Cache` of cachekit/cache.go.
use gopher_core.Common.{
  ℕ, ◌≤◌, ◌≡◌, refl, sym, ap, subst, ◌∙◌, ◌⊎◌, inl, inr, false, Option, none, some, List, String,
  if◌then◌else◌, arith, Option-cases, Bool-cases,
}
use gopher_core.Common.Int.{ℤ, pos}
use gopher_core.Common.Dict.{same_key, lookup}
use gopher_core.Runtime.{Err, Ctx}
use gopher_core.Cache.{Store, has_expired, expiry, clone, get}
use gopher_core.Cache.Isolation.{
  Program, makes, sets, gets, deletes, act, view, IsPrivate, act-view, get_miss, get_stale,
  get_fresh,
}
use gopher_core.Cache.Ownership.{act-IsPrivate}
use gopher_core.Cache.Contract.{Answers, Succeeds, Keeps}
use gopher_core.Cache.Contract.Methods.{
  fresh, contents, read_answer, memory_ops, fresh-without, memory_set-live, memory_delete-live,
  memory_set-ended, memory_get-live, memory_get-ended, memory_delete-ended,
}
use gopher_core.Cache.Contract.Private.{set-IsPrivate, get-IsPrivate, delete-IsPrivate}

makes-contents :
    (value : List ℕ) (p : Program) (t : ℕ) (k : String)
    → IsPrivate p
    → contents (act (makes value) p) t k ≡ contents p t k
makes-contents value p t k v = ap (fresh t) (act-view (makes value) p k v)

set-contents :
    (ctx : Ctx) (key : String) (value : List ℕ) (d : ℤ) (now t : ℕ) (k : String) (p : Program)
    → IsPrivate p
    → ctx now ≡ none
    → contents (memory_ops.set ctx key value d now p).0 t k
      ≡ (if same_key key k then fresh t (some (value, expiry now d)) else contents p t k)
unfolding act
set-contents ctx key value d now t k p v live =
    ap (λ r. contents r.0 t k) (memory_set-live ctx key value d now p live)
    ∙ ap (fresh t) (
        act-view (sets key p.store.next d now) (act (makes value) p) k
          (act-IsPrivate (makes value) p v))
    ∙ ground (arith, makes-contents value p t k v)

-- The one error for which a call fails is that of its context.
abbrev pub EndsWith : Ctx → ℕ → Err → Type 0
EndsWith ctx now e = ctx now ≡ some e

get_live-Answers :
    (Fails : Err → Type 0) (key : String) (now : ℕ) (p : Program)
    → Answers Fails (contents p now key) (read_answer p (get none key now (λ s. s) p.store)).1
unfolding clone
get_live-Answers Fails key now p = elim (Option-cases (lookup key p.store.items)) [
  | inl e ↦ rw (get_miss key now p.store e) (inl (rw e, refl))
  | inr (item, e) ↦ elim (Bool-cases (has_expired now item.expiration)) [
    | inl old ↦ rw (get_stale key now p.store item e old) (inl (rw e (rw old), refl))
    | inr new ↦ rw (get_fresh key now p.store item e new) (ground (arith, e, new))
  ]
]

read_answer-store : (p : Program) (r : Store × (ℕ ⊎ Err)) → (read_answer p r).0.store ≡ r.0
read_answer-store p (s, inl a) = refl
read_answer-store p (s, inr e) = refl

get_live_keeps :
    (key : String) (now t : ℕ) (k : String) (p : Program)
    → IsPrivate p
    → now ≤ t
    → contents (read_answer p (get none key now (λ s. s) p.store)).0 t k ≡ contents p t k
unfolding act
get_live_keeps key now t k p v later =
    ap (λ s. fresh t (view s k)) (read_answer-store p (get none key now (λ s. s) p.store))
    ∙ ap (fresh t) (act-view (gets key now) p k v)
    ∙ fresh-without now t (same_key key k) (view p.store k) later

set_others-contents :
    (ctx : Ctx) (key : String) (value : List ℕ) (d : ℤ) (now t : ℕ) (k : String) (p : Program)
    → IsPrivate p
    → same_key key k ≡ false
    → contents (memory_ops.set ctx key value d now p).0 t k ≡ contents p t k
set_others-contents ctx key value d now t k p v apart = elim (Option-cases (ctx now)) [
  | inl live ↦ set-contents ctx key value d now t k p v live ∙ rw apart
  | inr (e, ended) ↦
      ap (λ r. contents r.0 t k) (memory_set-ended ctx key value d now p e ended)
      ∙ makes-contents value p t k v
]

get-Answers :
    (ctx : Ctx) (key : String) (now : ℕ) (p : Program)
    → Answers (EndsWith ctx now) (contents p now key) (memory_ops.get ctx key now p).1
get-Answers ctx key now p = elim (Option-cases (ctx now)) [
  | inl live ↦
      subst (λ r. Answers (EndsWith ctx now) (contents p now key) r.1)
        (sym (memory_get-live ctx key now p live)) (get_live-Answers (EndsWith ctx now) key now p)
  | inr (e, ended) ↦
      subst (λ r. Answers (EndsWith ctx now) (contents p now key) r.1)
        (sym (memory_get-ended ctx key now p e ended)) (inr ended)
]

set-Succeeds :
    (ctx : Ctx) (key : String) (value : List ℕ) (d : ℤ) (now : ℕ) (p : Program)
    → Succeeds (EndsWith ctx now) (memory_ops.set ctx key value d now p).1
set-Succeeds ctx key value d now p = elim (Option-cases (ctx now)) [
  | inl live ↦
      subst (λ r. Succeeds (EndsWith ctx now) r.1)
        (sym (memory_set-live ctx key value d now p live)) tt
  | inr (e, ended) ↦
      subst (λ r. Succeeds (EndsWith ctx now) r.1)
        (sym (memory_set-ended ctx key value d now p e ended)) ended
]

delete-Succeeds :
    (ctx : Ctx) (key : String) (now : ℕ) (p : Program)
    → Succeeds (EndsWith ctx now) (memory_ops.delete ctx key now p).1
delete-Succeeds ctx key now p = elim (Option-cases (ctx now)) [
  | inl live ↦
      subst (λ r. Succeeds (EndsWith ctx now) r.1) (sym (memory_delete-live ctx key now p live)) tt
  | inr (e, ended) ↦
      subst (λ r. Succeeds (EndsWith ctx now) r.1) (sym (memory_delete-ended ctx key now p e ended))
        ended
]

get-keeps :
    (ctx : Ctx) (key : String) (now t : ℕ) (k : String) (p : Program)
    → IsPrivate p
    → now ≤ t
    → contents (memory_ops.get ctx key now p).0 t k ≡ contents p t k
get-keeps ctx key now t k p v later = elim (Option-cases (ctx now)) [
  | inl live ↦
      ap (λ r. contents r.0 t k) (memory_get-live ctx key now p live)
      ∙ get_live_keeps key now t k p v later
  | inr (e, ended) ↦ ap (λ r. contents r.0 t k) (memory_get-ended ctx key now p e ended)
]

-- When a call has returned no error, its context was alive.
live_of_none :
    {A : Type 0} (o : Option Err) (r : A × Option Err)
    → ((e : Err) → o ≡ some e → r.1 ≡ some e)
    → r.1 ≡ none
    → o ≡ none
live_of_none none r h n = refl
live_of_none (some e) r h n = ground (arith, n, h e refl)

set_forever-contents :
    (ctx : Ctx) (key : String) (value : List ℕ) (now t : ℕ) (k : String) (p : Program)
    → IsPrivate p
    → (memory_ops.set ctx key value (pos 0) now p).1 ≡ none
    → contents (memory_ops.set ctx key value (pos 0) now p).0 t k
      ≡ (if same_key key k then some value else contents p t k)
unfolding expiry
set_forever-contents ctx key value now t k p v n = set-contents ctx key value (pos 0) now t k p v (
    live_of_none (ctx now) (memory_ops.set ctx key value (pos 0) now p)
      (λ e ended. ap (λ r. r.1) (memory_set-ended ctx key value (pos 0) now p e ended)) n)

delete-contents :
    (ctx : Ctx) (key : String) (now t : ℕ) (k : String) (p : Program)
    → IsPrivate p
    → (memory_ops.delete ctx key now p).1 ≡ none
    → contents (memory_ops.delete ctx key now p).0 t k
      ≡ (if same_key key k then none else contents p t k)
delete-contents ctx key now t k p v n =
    ap (λ r. contents r.0 t k) (memory_delete-live ctx key now p live)
    ∙ ap (fresh t) (act-view (deletes key) p k v)
    ∙ ground arith
  where
    live : ctx now ≡ none
    live =
        live_of_none (ctx now) (memory_ops.delete ctx key now p)
          (λ e ended. ap (λ r. r.1) (memory_delete-ended ctx key now p e ended)) n

delete_others-contents :
    (ctx : Ctx) (key : String) (now t : ℕ) (k : String) (p : Program)
    → IsPrivate p
    → same_key key k ≡ false
    → contents (memory_ops.delete ctx key now p).0 t k ≡ contents p t k
delete_others-contents ctx key now t k p v apart = elim (Option-cases (ctx now)) [
  | inl live ↦
      delete-contents ctx key now t k p v (ap (λ r. r.1) (memory_delete-live ctx key now p live))
      ∙ rw apart
  | inr (e, ended) ↦ ap (λ r. contents r.0 t k) (memory_delete-ended ctx key now p e ended)
]

-- The in-memory cache keeps what the interface `Cache` promises of the contents, in a program whose
-- cache's slices are its own. `Set`, `Get` and `Delete` give no error but the context's, where it has one,
-- and `ErrCacheMiss` of `Get`: unless it gives the context's error, `Get` returns the key's bytes, or
-- `ErrCacheMiss` if the key has no contents. After a `Set` with no expiration and no error the key's
-- contents are the bytes until it is set or deleted, and after a `Delete` with no error, of a key that
-- is there or not, there are none; neither changes another key, and `Get` changes no contents. Every
-- method leaves the cache's slices its own.
pub memory-Keeps : Keeps IsPrivate EndsWith contents memory_ops
memory-Keeps = record {
  set_succeeds = set-Succeeds;
  set_forever = set_forever-contents;
  set_others = set_others-contents;
  get_answers = λ ctx key now p v. get-Answers ctx key now p;
  get_keeps = get-keeps;
  delete_succeeds = delete-Succeeds;
  delete_removes = delete-contents;
  delete_others = delete_others-contents;
  set_valid = set-IsPrivate;
  get_valid = get-IsPrivate;
  delete_valid = delete-IsPrivate;
}
