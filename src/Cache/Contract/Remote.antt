-- ===== src/Cache/Contract/Remote.antt =====
-- The cache in Redis (cachekit/redis.go) as a `Cache`, on a server that does as documented.
use gopher_core.Common.{
  ℕ, ◌≤◌, ◌≡◌, refl, ◌⊎◌, inl, inr, true, false, Option, none, some, List, String, if◌then◌else◌,
}
use gopher_core.Common.Int.{ℤ, pos}
use gopher_core.Common.Dict.{same_key}
use gopher_core.Runtime.{Err, is, redis_nil, Ctx}
use gopher_core.Cache.Redis.{RedisClient, remap, redis_set, redis_get, redis_delete}
use gopher_core.Cache.Contract.{CacheOps, Answers, Succeeds, Keeps}

-- What GET answers: the value, or go-redis's `Nil` if there is none, or another error.
abbrev pub Finds : (Err → Type 0) → Option (List ℕ) → List ℕ ⊎ Err → Type 0
Finds Fails contents (inl bytes) = contents ≡ some bytes
Finds Fails contents (inr e) =
    ((is e redis_nil ≡ true) × (contents ≡ none)) ⊎ ((is e redis_nil ≡ false) × Fails e)

-- The documented behaviour of SET, GET and DEL
pub record Serves {S : Type 0} (client : RedisClient S) (Fails : Ctx → ℕ → Err → Type 0)
    (contents : S → ℕ → String → Option (List ℕ)) : Type 0 where
  pub set_answers :
      (ctx : Ctx) (key : String) (value : List ℕ) (d : ℤ) (now : ℕ) (s : S)
      → Succeeds (Fails ctx now) (client.set_command ctx key value d now s).1
  -- DEL of a key that is not there is no error.
  pub del_answers :
      (ctx : Ctx) (key : String) (now : ℕ) (s : S)
      → Succeeds (Fails ctx now) (client.del_command ctx key now s).1
  pub sets_forever :
      (ctx : Ctx) (key : String) (value : List ℕ) (now t : ℕ) (k : String) (s : S)
      → (client.set_command ctx key value (pos 0) now s).1 ≡ none
      → contents (client.set_command ctx key value (pos 0) now s).0 t k
        ≡ (if same_key key k then some value else contents s t k)
  pub sets_one :
      (ctx : Ctx) (key : String) (value : List ℕ) (d : ℤ) (now t : ℕ) (k : String) (s : S)
      → same_key key k ≡ false
      → contents (client.set_command ctx key value d now s).0 t k ≡ contents s t k
  pub finds :
      (ctx : Ctx) (key : String) (now : ℕ) (s : S)
      → Finds (Fails ctx now) (contents s now key) (client.get_command ctx key now s).1
  pub reads_only :
      (ctx : Ctx) (key : String) (now t : ℕ) (k : String) (s : S)
      → now ≤ t
      → contents (client.get_command ctx key now s).0 t k ≡ contents s t k
  pub removes :
      (ctx : Ctx) (key : String) (now t : ℕ) (k : String) (s : S)
      → (client.del_command ctx key now s).1 ≡ none
      → contents (client.del_command ctx key now s).0 t k
        ≡ (if same_key key k then none else contents s t k)
  pub removes_one :
      (ctx : Ctx) (key : String) (now t : ℕ) (k : String) (s : S)
      → same_key key k ≡ false
      → contents (client.del_command ctx key now s).0 t k ≡ contents s t k

abbrev pub redis_ops : {S : Type 0} → RedisClient S → CacheOps S
redis_ops client = record {
  set = redis_set client;
  get = redis_get client;
  delete = redis_delete client;
}

remap-Answers :
    (Fails : Err → Type 0) (o : Option (List ℕ)) (answer : List ℕ ⊎ Err)
    → Finds Fails o answer
    → Answers Fails o (remap answer)
remap-Answers Fails o (inl bytes) h = h
remap-Answers Fails o (inr e) (inl (found, absent)) = rw found (inl (absent, refl))
remap-Answers Fails o (inr e) (inr (other, fails)) = rw other (inr fails)

-- On a server that does as documented, the cache in Redis keeps what the interface `Cache` promises of the
-- contents, the errors for which its calls fail being those of go-redis other than `Nil`.
pub redis-Keeps :
    {S : Type 0} (client : RedisClient S) (Fails : Ctx → ℕ → Err → Type 0)
    (contents : S → ℕ → String → Option (List ℕ))
    → Serves client Fails contents
    → Keeps (λ s. Unit) Fails contents (redis_ops client)
unfolding redis_set redis_get redis_delete
redis-Keeps client Fails contents h = record {
  set_succeeds = h.set_answers;
  set_forever = λ ctx key value now t k s v n. h.sets_forever ctx key value now t k s n;
  set_others = λ ctx key value d now t k s v apart. h.sets_one ctx key value d now t k s apart;
  get_answers = λ ctx key now s v.
      remap-Answers (Fails ctx now) (contents s now key) (client.get_command ctx key now s).1
        (h.finds ctx key now s);
  get_keeps = λ ctx key now t k s v later. h.reads_only ctx key now t k s later;
  delete_succeeds = h.del_answers;
  delete_removes = λ ctx key now t k s v n. h.removes ctx key now t k s n;
  delete_others = λ ctx key now t k s v apart. h.removes_one ctx key now t k s apart;
  set_valid = λ ctx key value d now s v. tt;
  get_valid = λ ctx key now s v. tt;
  delete_valid = λ ctx key now s v. tt;
}
