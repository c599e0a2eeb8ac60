-- ===== src/Result/Laws.antt =====
-- The laws of `Result` (result/result.go).
use gopher_core.Common.{◌≡◌, refl, Option, none, some, arith}
use gopher_core.Runtime.{Err}
use gopher_core.Result.{Result, HasZero, ok_of, err_of, of, unwrap, map_result, flat_map}

-- A result that `Ok`, or `Err` of a non-nil error, makes.
pub data IsMade {ℓ} {T : Type ℓ} ⦃z : HasZero T⦄ (r : Result T) : Type ℓ where
  made_ok : (v : T) → r ≡ ok_of v → IsMade r
  made_err : (e : Err) → r ≡ err_of (some e) → IsMade r

-- What Go's convention keeps of a pair: one with an error has no value.
abbrev pub canonical {ℓ} : {T : Type ℓ} → ⦃z : HasZero T⦄ → T × Option Err → T × Option Err
canonical (v, none) = (v, none)
canonical ⦃z⦄ (v, some e) = (z.zero_value, some e)

module _ {ℓ} {T : Type ℓ} ⦃z : HasZero T⦄ where
  -- `Of` undoes `Unwrap` on every result that `Ok`, or `Err` of a non-nil error, makes.
  pub of-unwrap : (r : Result T) → IsMade r → of (unwrap r).0 (unwrap r).1 ≡ r
  unfolding of unwrap ok_of err_of
  of-unwrap r (made_ok v e) = rw e
  of-unwrap r (made_err x e) = rw e

  -- `Unwrap` after `Of` is the pair itself when it has no error, and the zero value with the error
  -- when it has one.
  pub unwrap-of : (v : T) (e : Option Err) → unwrap (of v e) ≡ canonical (v, e)
  unfolding of unwrap ok_of err_of
  unwrap-of v none = refl
  unwrap-of v (some e) = refl

  -- `Of` only makes what `Ok`, or `Err` of a non-nil error, makes.
  pub of-IsMade : (v : T) (e : Option Err) → IsMade (of v e)
  unfolding of
  of-IsMade v none = made_ok v refl
  of-IsMade v (some e) = made_err e refl

module _ {ℓ κ μ} {T : Type ℓ} {U : Type κ} {V : Type μ} ⦃u : HasZero U⦄ ⦃v : HasZero V⦄ where
  -- `FlatMap` is associative on every result, made by a constructor or not.
  pub flat_map_assoc :
      (r : Result T) (f : T → Result U) (g : U → Result V)
      → flat_map (flat_map r f) g ≡ flat_map r (λ x. flat_map (f x) g)
  unfolding flat_map err_of
  flat_map_assoc r f g = ground arith

  -- `Map` of a composition is the composition of the `Map`s.
  pub map_result_comp :
      (r : Result T) (f : T → U) (g : U → V)
      → map_result (map_result r f) g ≡ map_result r (λ x. g (f x))
  unfolding map_result ok_of err_of
  map_result_comp r f g = ground arith

module _ {ℓ κ} {T : Type ℓ} {U : Type κ} ⦃t : HasZero T⦄ ⦃u : HasZero U⦄ where
  -- `Map` is `FlatMap` with `Ok` after the function.
  pub map_result-flat_map :
      (r : Result T) (f : T → U) → map_result r f ≡ flat_map r (λ x. ok_of (f x))
  unfolding flat_map map_result ok_of err_of
  map_result-flat_map r f = ground arith

  -- The unit laws of `FlatMap`: from `Ok` it calls the function, and `FlatMap` to `Ok` gives back every
  -- result that `Ok`, or `Err` of a non-nil error, makes.
  pub flat_map_unit :
      (x : U) (f : U → Result T) (r : Result T)
      → IsMade r
      → (flat_map (ok_of x) f ≡ f x) × (flat_map r ok_of ≡ r)
  unfolding flat_map ok_of err_of
  flat_map_unit x f r (made_ok v e) = (refl, rw e)
  flat_map_unit x f r (made_err v e) = (refl, rw e)
