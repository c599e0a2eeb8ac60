-- ===== src/Guard/Validation.antt =====
-- The validation errors of guard/guard.go. What `validator.Struct` finds is a parameter: nothing, an error
-- that is no list of field errors, or the field errors.
use Prim.Native.String.{◌++◌ as str_append}
use text.Mathlib.Text.{◌==◌ as str_eq}
use text.Mathlib.TextLemmas.{append_assoc as str_append_assoc}
use mathlib.Core.List.{map-append}
use gopher_core.Common.{◌≡◌, refl, ◌≢◌, List, [], ◌∷◌, ◌++◌, map, String, if◌then◌else◌, ap, ◌∙◌}
use gopher_core.Runtime.{Err}

-- `validator.FieldError`, with its value printed by `%v`
pub record FieldError : Type 0 where
  pub field : String
  pub tag : String
  pub value : String
  pub param : String

pub record ValidationError : Type 0 where
  pub field : String
  pub tag : String
  pub value : String
  pub message : String

-- The formats "field '%s' …" and "field '%s' … %s"
abbrev about : FieldError → String → String
about fe rest = str_append "field '" (str_append fe.field rest)

-- `formatValidationError`
unfoldable pub format_validation_error : FieldError → String
format_validation_error fe =
    if str_eq fe.tag "required"
    then about fe "' is required"
    else if str_eq fe.tag "email"
    then about fe "' must be a valid email address"
    else if str_eq fe.tag "min"
    then about fe (str_append "' must be at least " fe.param)
    else if str_eq fe.tag "max"
    then about fe (str_append "' must be at most " fe.param)
    else if str_eq fe.tag "gte"
    then about fe (str_append "' must be greater than or equal to " fe.param)
    else if str_eq fe.tag "lte"
    then about fe (str_append "' must be less than or equal to " fe.param)
    else if str_eq fe.tag "url"
    then about fe "' must be a valid URL"
    else if str_eq fe.tag "uuid"
    then about fe "' must be a valid UUID"
    else about fe (str_append "' failed validation on tag '" (str_append fe.tag "'"))

-- What `validate.Struct(s)` returns
pub data Finding : Type 0 where
  complies : Finding
  unusable : Err → Finding
  broken : List FieldError → Finding

-- What `Validate` returns
pub data Verdict : Type 0 where
  valid : Verdict
  refused : Err → Verdict
  invalid : List ValidationError → Verdict

abbrev describe : FieldError → ValidationError
describe fe = record {
  field = fe.field;
  tag = fe.tag;
  value = fe.value;
  message = format_validation_error fe;
}

describe_all : List FieldError → List ValidationError
describe_all [] = []
describe_all (fe ∷ rest) = describe fe ∷ describe_all rest

-- `Validate`
pub validate : Finding → Verdict
unfolding describe_all
validate complies = valid
validate (unusable e) = refused e
validate (broken fes) = invalid (describe_all fes)

-- `strings.Join`
pub join_texts : String → List String → String
join_texts sep [] = ""
join_texts sep (s ∷ []) = s
join_texts sep (s ∷ t ∷ rest) = str_append s (str_append sep (join_texts sep (t ∷ rest)))

-- `ValidationErrors.Error`
pub error_text : List ValidationError → String
unfolding join_texts
error_text errors = join_texts "; " (map (λ (e : ValidationError). e.message) errors)

regroup :
    (a b c d : String)
    → str_append a (str_append b (str_append c d)) ≡ str_append (str_append a (str_append b c)) d
regroup a b c d = simp str_append_assoc

join_texts-append :
    (sep : String) (xs ys : List String)
    → xs ≢ []
    → ys ≢ []
    → join_texts sep (xs ++ ys)
      ≡ str_append (join_texts sep xs) (str_append sep (join_texts sep ys))
unfolding join_texts
join_texts-append sep [] ys p q = absurd (p refl)
join_texts-append sep (x ∷ []) [] p q = absurd (q refl)
join_texts-append sep (x ∷ []) (y ∷ ys) p q = refl
join_texts-append sep (x ∷ z ∷ xs) ys p q =
    ap (λ t. str_append x (str_append sep t)) (join_texts-append sep (z ∷ xs) ys (λ e. cc) q)
    ∙ regroup x sep (join_texts sep (z ∷ xs)) (str_append sep (join_texts sep ys))

map-ne-nil {ℓ κ} : {A : Type ℓ} {B : Type κ} (f : A → B) (xs : List A) → xs ≢ [] → map f xs ≢ []
map-ne-nil f [] p e = p refl
map-ne-nil f (x ∷ xs) p e = cc

-- The text of two lists of errors together is theirs with "; " between: each message is there, in order.
pub error_text-append :
    (xs ys : List ValidationError)
    → xs ≢ []
    → ys ≢ []
    → error_text (xs ++ ys) ≡ str_append (error_text xs) (str_append "; " (error_text ys))
unfolding error_text
error_text-append xs ys p q = rw map-append (
    join_texts-append "; " (map (λ (e : ValidationError). e.message) xs)
      (map (λ (e : ValidationError). e.message) ys) (map-ne-nil _ xs p) (map-ne-nil _ ys q))
