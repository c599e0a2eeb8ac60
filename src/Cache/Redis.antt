-- ===== src/Cache/Redis.antt =====
-- cachekit/redis.go: the cache in Redis. go-redis is a parameter, over a state `S` that holds what the
-- server has; bytes are a list.
use gopher_core.Common.{
  ℕ, ◌≡◌, refl, ◌⊎◌, inl, inr, false, Option, List, String, if◌then◌else◌, Bool-cases,
}
use gopher_core.Common.Int.{ℤ}
use gopher_core.Runtime.{Err, is, sentinel, cache_miss, redis_nil, Ctx}

-- The commands of go-redis that the cache calls, with the context and the instant `now` at which the
-- server runs them
pub record RedisClient (S : Type 0) : Type 0 where
  pub set_command : Ctx → String → List ℕ → ℤ → (now : ℕ) → S → S × Option Err
  pub get_command : Ctx → String → (now : ℕ) → S → S × (List ℕ ⊎ Err)
  pub del_command : Ctx → String → (now : ℕ) → S → S × Option Err

-- A key that is not found is go-redis's `Nil`.
abbrev pub remap : List ℕ ⊎ Err → List ℕ ⊎ Err
remap (inl bytes) = inl bytes
remap (inr e) = inr (if is e redis_nil then sentinel cache_miss else e)

module _ {S : Type 0} (client : RedisClient S) where
  unfoldable pub redis_set : Ctx → String → List ℕ → ℤ → ℕ → S → S × Option Err
  redis_set ctx key value expiration now s = client.set_command ctx key value expiration now s

  unfoldable pub redis_get : Ctx → String → ℕ → S → S × (List ℕ ⊎ Err)
  redis_get ctx key now s =
      let (s', answer) = client.get_command ctx key now s in (s', remap answer)

  unfoldable pub redis_delete : Ctx → String → ℕ → S → S × Option Err
  redis_delete ctx key now s = client.del_command ctx key now s

-- The error, if there is one, is not go-redis's `Nil`, wrapped or not.
abbrev pub IsOwn : List ℕ ⊎ Err → Type 0
IsOwn (inl bytes) = Unit
IsOwn (inr e) = is e redis_nil ≡ false

remap-IsOwn : (answer : List ℕ ⊎ Err) → IsOwn (remap answer)
unfolding is
remap-IsOwn (inl bytes) = tt
remap-IsOwn (inr e) = elim (Bool-cases (is e redis_nil)) [ inl h ↦ rw h refl | inr h ↦ rw h h ]

-- No error of the cache's `Get` is go-redis's `Nil`, wrapped or not.
pub redis_get-IsOwn :
    {S : Type 0} (client : RedisClient S) (ctx : Ctx) (key : String) (now : ℕ) (s : S)
    → IsOwn (redis_get client ctx key now s).1
unfolding redis_get
redis_get-IsOwn client ctx key now s = remap-IsOwn (client.get_command ctx key now s).1
