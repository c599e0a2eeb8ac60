-- ===== src/Common/Lists.antt =====
-- Lists measured and indexed by native numbers, and predicates on every element.
use Prim.Native.Nat.{ℕ, zero, suc, ◌+◌}
use mathlib.Core.Path.{◌≡◌, refl}
use mathlib.Core.Bool.{Bool}
use mathlib.Core.List.{append-nil, append_assoc, map-append, List, [], ◌∷◌, ◌++◌}
use mathlib.Core.Option.{Option, none, some}
use native.Mathlib.Omega.{arith}
use gopher_core.Common.Tests.{if◌then◌else◌}

module _ {ℓ} {A : Type ℓ} where
  abbrev pub length : List A → ℕ
  length [] = 0
  length (x ∷ xs) = suc (length xs)

  abbrev pub get_elem? : List A → ℕ → Option A
  get_elem? [] i = none
  get_elem? (x ∷ xs) zero = some x
  get_elem? (x ∷ xs) (suc i) = get_elem? xs i

  abbrev pub replicate : ℕ → A → List A
  replicate zero a = []
  replicate (suc n) a = a ∷ replicate n a

  abbrev pub All {κ} : (A → Type κ) → List A → Type κ
  All P [] = Unit
  All P (x ∷ xs) = P x × All P xs

  -- How many elements pass the test.
  abbrev pub count_if : (A → Bool) → List A → ℕ
  count_if p [] = 0
  count_if p (x ∷ xs) = if p x then suc (count_if p xs) else count_if p xs

  -- The elements that pass the test, in order.
  abbrev pub keep : (A → Bool) → List A → List A
  keep p [] = []
  keep p (x ∷ xs) = if p x then x ∷ keep p xs else keep p xs

module _ {ℓ} {A : Type ℓ} where
  pub length-append : (xs ys : List A) → length (xs ++ ys) ≡ length xs + length ys
  length-append [] ys = omega arith
  length-append (x ∷ xs) ys = omega (arith, length-append xs ys)

  pub All-append {κ} :
      (Q : A → Type κ) (front back : List A) → All Q front → All Q back → All Q (front ++ back)
  All-append Q [] back first second = second
  All-append Q (a ∷ front) back (head, tail) second = (head, All-append Q front back tail second)

  pub All-head_of_append {κ} :
      (P : A → Type κ) (xs : List A) (x : A) (ys : List A) → All P (xs ++ x ∷ ys) → P x
  All-head_of_append P [] x ys h = h.0
  All-head_of_append P (y ∷ xs) x ys h = All-head_of_append P xs x ys h.1

  pub All-drop_middle {κ} :
      (P : A → Type κ) (xs : List A) (x : A) (ys : List A) → All P (xs ++ x ∷ ys) → All P (xs ++ ys)
  All-drop_middle P [] x ys h = h.1
  All-drop_middle P (y ∷ xs) x ys h = (h.0, All-drop_middle P xs x ys h.1)

  pub All-replace_middle {κ} :
      (P : A → Type κ) (front : List A) (a b : A) (back : List A)
      → All P (front ++ a ∷ back)
      → P b
      → All P (front ++ b ∷ back)
  All-replace_middle P [] a b back (h, t) p = (p, t)
  All-replace_middle P (c ∷ front) a b back (h, t) p = (h, All-replace_middle P front a b back t p)

  pub All-map {κ} : (P Q : A → Type κ) (xs : List A) → ((a : A) → P a → Q a) → All P xs → All Q xs
  All-map P Q [] f h = tt
  All-map P Q (a ∷ xs) f (h, t) = (f a h, All-map P Q xs f t)

  pub count_if-middle :
      (p : A → Bool) (xs : List A) (x : A) (ys : List A)
      → count_if p (xs ++ x ∷ ys)
        ≡ (if p x then suc (count_if p (xs ++ ys)) else count_if p (xs ++ ys))
  count_if-middle p [] x ys = refl
  count_if-middle p (y ∷ xs) x ys = ground (arith, count_if-middle p xs x ys)

-- Lists joined, in one form.
pub ruleset list_laws = (append-nil, append_assoc, map-append)
