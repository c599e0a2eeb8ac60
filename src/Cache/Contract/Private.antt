-- ===== src/Cache/Contract/Private.antt =====
-- The methods of the in-memory cache (cachekit/memory.go) leave the cache's slices its own.
use gopher_core.Common.{ℕ, ◌≡◌, refl, sym, subst, ◌⊎◌, inl, inr, none, List, String, Option-cases}
use gopher_core.Common.Int.{ℤ}
use gopher_core.Runtime.{Err, Ctx}
use gopher_core.Cache.{Store, get}
use gopher_core.Cache.Isolation.{Program, makes, sets, gets, deletes, act, IsPrivate, learn_answer}
use gopher_core.Cache.Ownership.{act-IsPrivate}
use gopher_core.Cache.Contract.Methods.{
  read_answer, memory_ops, memory_set-live, memory_delete-live, memory_set-ended, memory_get-live,
  memory_get-ended, memory_delete-ended,
}

pub set-IsPrivate :
    (ctx : Ctx) (key : String) (value : List ℕ) (d : ℤ) (now : ℕ) (p : Program)
    → IsPrivate p
    → IsPrivate (memory_ops.set ctx key value d now p).0
set-IsPrivate ctx key value d now p v = elim (Option-cases (ctx now)) [
  | inl live ↦
      subst (λ r. IsPrivate r.0) (sym (memory_set-live ctx key value d now p live))
        (act-IsPrivate (sets key p.store.next d now) _ (act-IsPrivate (makes value) p v))
  | inr (e, ended) ↦
      subst (λ r. IsPrivate r.0) (sym (memory_set-ended ctx key value d now p e ended))
        (act-IsPrivate (makes value) p v)
]

read_answer-act :
    (p : Program) (r : Store × (ℕ ⊎ Err))
    → (read_answer p r).0 ≡ record { store = r.0; known = learn_answer p.known r.1 }
read_answer-act p (s, inl a) = refl
read_answer-act p (s, inr e) = refl

pub get-IsPrivate :
    (ctx : Ctx) (key : String) (now : ℕ) (p : Program)
    → IsPrivate p
    → IsPrivate (memory_ops.get ctx key now p).0
unfolding act
get-IsPrivate ctx key now p v = elim (Option-cases (ctx now)) [
  | inl live ↦
      subst (λ r. IsPrivate r.0) (sym (memory_get-live ctx key now p live))
        (subst IsPrivate (sym (read_answer-act p (get none key now (λ s. s) p.store)))
          (act-IsPrivate (gets key now) p v))
  | inr (e, ended) ↦ subst (λ r. IsPrivate r.0) (sym (memory_get-ended ctx key now p e ended)) v
]

pub delete-IsPrivate :
    (ctx : Ctx) (key : String) (now : ℕ) (p : Program)
    → IsPrivate p
    → IsPrivate (memory_ops.delete ctx key now p).0
delete-IsPrivate ctx key now p v = elim (Option-cases (ctx now)) [
  | inl live ↦
      subst (λ r. IsPrivate r.0) (sym (memory_delete-live ctx key now p live))
        (act-IsPrivate (deletes key) p v)
  | inr (e, ended) ↦ subst (λ r. IsPrivate r.0) (sym (memory_delete-ended ctx key now p e ended)) v
]
