-- ===== src/Result.antt =====
-- result/result.go: a value or an error. The struct is as in the source, so a value of it can also be
-- one that no constructor makes, such as the zero `Result`.
pub mod Laws
mod Tests
use Prim.Native.String.{◌++◌ as str_append}
use gopher_core.Common.{String, Bool, true, false, not, Option, none, some, if◌then◌else◌}
use gopher_core.Runtime.{Err}

pub record Result {ℓ} (T : Type ℓ) : Type ℓ where
  pub value : T
  pub err : Option Err
  pub ok : Bool

-- A type with its zero value, which Go gives to a field that is not set.
pub record HasZero {ℓ} (T : Type ℓ) : Type ℓ where
  pub zero_value : T

module _ {ℓ} {T : Type ℓ} where
  -- `Ok`
  unfoldable pub ok_of : T → Result T
  ok_of v = record { value = v; err = none; ok = true }

  -- `Err`, of an error that may be nil
  unfoldable pub err_of : ⦃z : HasZero T⦄ → Option Err → Result T
  err_of ⦃z⦄ e = record { value = z.zero_value; err = e; ok = false }

  -- `Of`
  unfoldable pub of : ⦃z : HasZero T⦄ → T → Option Err → Result T
  unfolding err_of ok_of
  of v none = ok_of v
  of v (some e) = err_of (some e)

  -- `Errf`, of `fmt.Errorf` on a format and its arguments
  unfoldable pub errf :
      {A : Type 0} → ⦃z : HasZero T⦄ → (errorf : String → A → Err) → String → A → Result T
  unfolding err_of
  errf errorf format args = err_of (some (errorf format args))

  unfoldable pub is_ok : Result T → Bool
  is_ok r = r.ok

  unfoldable pub is_err : Result T → Bool
  is_err r = not r.ok

  unfoldable pub unwrap : Result T → T × Option Err
  unwrap r = (r.value, r.err)

  unfoldable pub unwrap_or : Result T → T → T
  unwrap_or r fallback = if r.ok then r.value else fallback

  unfoldable pub unwrap_or_else : Result T → (Option Err → T) → T
  unwrap_or_else r fn = if r.ok then r.value else fn r.err

  -- The method `Error`
  unfoldable pub error : Result T → Option Err
  error r = r.err

module _ {ℓ κ} {T : Type ℓ} {U : Type κ} ⦃z : HasZero U⦄ where
  -- `Map`
  unfoldable pub map_result : Result T → (T → U) → Result U
  unfolding ok_of err_of
  map_result r fn = if r.ok then ok_of (fn r.value) else err_of r.err

  -- `FlatMap`
  unfoldable pub flat_map : Result T → (T → Result U) → Result U
  unfolding err_of
  flat_map r fn = if r.ok then fn r.value else err_of r.err

-- The method `String`, of what `%v` prints
unfoldable pub to_string {ℓ} :
    {T : Type ℓ} → (print : T → String) → (print_error : Option Err → String) → Result T → String
to_string print print_error r =
    if r.ok
    then str_append "Ok(" (str_append (print r.value) ")")
    else str_append "Err(" (str_append (print_error r.err) ")")
