-- ===== src/Cache/Contract.antt =====
-- The interface `Cache` of cachekit/cache.go: its operations, what they promise of a cache's contents, and
-- that both caches keep it (cachekit/memory.go, cachekit/redis.go).
pub mod Methods
pub mod Private
pub mod Memory
pub mod Remote
use gopher_core.Common.{
  ℕ, ◌≤◌, ◌≡◌, ◌⊎◌, inl, inr, Bool, false, Option, none, some, List, String, if◌then◌else◌,
}
use gopher_core.Common.Int.{ℤ, pos}
use gopher_core.Common.Dict.{same_key}
use gopher_core.Runtime.{Err, sentinel, cache_miss, Ctx}

-- The methods of a cache with state `S`, each at its instant `now`; bytes are a list.
pub record CacheOps (S : Type 0) : Type 0 where
  pub set :
      (ctx : Ctx) (key : String) (value : List ℕ) (expiration : ℤ) (now : ℕ) → S → S × Option Err
  pub get : (ctx : Ctx) (key : String) (now : ℕ) → S → S × (List ℕ ⊎ Err)
  pub delete : (ctx : Ctx) (key : String) (now : ℕ) → S → S × Option Err

-- What `Get` answers of a key's contents: the bytes that are there; `ErrCacheMiss`, if there are none; or an
-- error for which a call can fail.
abbrev pub Answers : (Err → Type 0) → Option (List ℕ) → List ℕ ⊎ Err → Type 0
Answers Fails contents (inl bytes) = contents ≡ some bytes
Answers Fails contents (inr e) = ((contents ≡ none) × (e ≡ sentinel cache_miss)) ⊎ Fails e

-- No error, or one for which a call can fail
abbrev pub Succeeds : (Err → Type 0) → Option Err → Type 0
Succeeds Fails none = Unit
Succeeds Fails (some e) = Fails e

-- The promises, of the contents of each key at each instant. `Fails ctx now` are the errors for which a call
-- with this context can fail then, as that of the context or of a connection.
pub record Keeps {S : Type 0} (IsValid : S → Type 0) (Fails : Ctx → ℕ → Err → Type 0)
    (contents : S → ℕ → String → Option (List ℕ)) (ops : CacheOps S) : Type 0 where
  pub set_succeeds :
      (ctx : Ctx) (key : String) (value : List ℕ) (d : ℤ) (now : ℕ) (s : S)
      → Succeeds (Fails ctx now) (ops.set ctx key value d now s).1
  -- "If expiration is 0, the key has no expiration time."
  pub set_forever :
      (ctx : Ctx) (key : String) (value : List ℕ) (now t : ℕ) (k : String) (s : S)
      → IsValid s
      → (ops.set ctx key value (pos 0) now s).1 ≡ none
      → contents (ops.set ctx key value (pos 0) now s).0 t k
        ≡ (if same_key key k then some value else contents s t k)
  pub set_others :
      (ctx : Ctx) (key : String) (value : List ℕ) (d : ℤ) (now t : ℕ) (k : String) (s : S)
      → IsValid s
      → same_key key k ≡ false
      → contents (ops.set ctx key value d now s).0 t k ≡ contents s t k
  -- "Returns ErrCacheMiss if the key is not found."
  pub get_answers :
      (ctx : Ctx) (key : String) (now : ℕ) (s : S)
      → IsValid s
      → Answers (Fails ctx now) (contents s now key) (ops.get ctx key now s).1
  pub get_keeps :
      (ctx : Ctx) (key : String) (now t : ℕ) (k : String) (s : S)
      → IsValid s
      → now ≤ t
      → contents (ops.get ctx key now s).0 t k ≡ contents s t k
  -- "Does not return an error if the key does not exist."
  pub delete_succeeds :
      (ctx : Ctx) (key : String) (now : ℕ) (s : S)
      → Succeeds (Fails ctx now) (ops.delete ctx key now s).1
  pub delete_removes :
      (ctx : Ctx) (key : String) (now t : ℕ) (k : String) (s : S)
      → IsValid s
      → (ops.delete ctx key now s).1 ≡ none
      → contents (ops.delete ctx key now s).0 t k
        ≡ (if same_key key k then none else contents s t k)
  pub delete_others :
      (ctx : Ctx) (key : String) (now t : ℕ) (k : String) (s : S)
      → IsValid s
      → same_key key k ≡ false
      → contents (ops.delete ctx key now s).0 t k ≡ contents s t k
  pub set_valid :
      (ctx : Ctx) (key : String) (value : List ℕ) (d : ℤ) (now : ℕ) (s : S)
      → IsValid s
      → IsValid (ops.set ctx key value d now s).0
  pub get_valid :
      (ctx : Ctx) (key : String) (now : ℕ) (s : S) → IsValid s → IsValid (ops.get ctx key now s).0
  pub delete_valid :
      (ctx : Ctx) (key : String) (now : ℕ) (s : S)
      → IsValid s
      → IsValid (ops.delete ctx key now s).0
