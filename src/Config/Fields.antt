-- ===== src/Config/Fields.antt =====
-- `populate` and `Load` of config/config.go, over the fields of a struct.
use gopher_core.Common.{Bool, true, false, Option, none, some, String, if◌then◌else◌}
use gopher_core.Common.Dict.{lookup, same_key}
use gopher_core.Common.Text.{Text, is_empty}
use gopher_core.Config.{
  Env, Kind, Value, Library, LoadError, Parsed, parsed, failed, in_field, not_a_pointer,
  not_a_struct, set_field,
}

-- A field's name, whether it can be set, and its tags
pub record Tag : Type 0 where
  pub name : String
  pub settable : Bool
  pub env_key : String
  pub env_default : Text

-- A field's value: one that is set as a whole, a struct, or a pointer to a struct, nil or not. A nil one
-- comes with the zero value of the struct.
mutual
  pub data Node (F : Type 0) : Type 0 where
    leaf : Kind → Value F → Node F
    nested : Fields F → Node F
    absent : Fields F → Node F
    present : Fields F → Node F

  pub data Fields (F : Type 0) : Type 0 where
    end : Fields F
    field : Tag → Node F → Fields F → Fields F

-- The text for a field: the variable if it is set, be it empty, or else a default that is not empty
unfoldable pub find_text : Env → Tag → Option Text
unfolding lookup
find_text env tag = elim (lookup tag.env_key env) [
  | some s ↦ some s
  | none ↦ if is_empty tag.env_default then none else some tag.env_default
]

module _ {F : Type 0} (lib : Library F) (env : Env) where
  abbrev pub keep_or_set : Tag → Kind → Value F → Parsed (Value F) → Node F × Option LoadError
  keep_or_set tag kind old (parsed v) = (leaf kind v, none)
  keep_or_set tag kind old (failed e) = (leaf kind old, some (in_field tag.name e))

  abbrev pub set_text : Tag → Kind → Value F → Option Text → Node F × Option LoadError
  set_text tag kind old none = (leaf kind old, none)
  set_text tag kind old (some s) = keep_or_set tag kind old (set_field lib kind s)

  -- The end of the loop's body for a field that is no struct
  unfoldable pub load_leaf : Tag → Kind → Value F → Node F × Option LoadError
  unfolding set_field find_text
  load_leaf tag kind old =
      if same_key tag.env_key ""
      then (leaf kind old, none)
      else set_text tag kind old (find_text env tag)

  abbrev pub wrap_fields :
      (Fields F → Node F) → Fields F × Option LoadError → Node F × Option LoadError
  wrap_fields wrap (fs, o) = (wrap fs, o)

  -- `if !fieldValue.CanSet() { continue }`
  abbrev pub when_settable : Bool → Node F → Node F × Option LoadError → Node F × Option LoadError
  when_settable true node visited = visited
  when_settable false node visited = (node, none)

  -- The rest of the fields after one, which an error leaves as they are
  abbrev pub after :
      Tag
      → Node F × Option LoadError
      → Fields F
      → Fields F × Option LoadError
      → Fields F × Option LoadError
  after tag (node, some e) rest loaded = (field tag node rest, some e)
  after tag (node, none) rest (rest', o) = (field tag node rest', o)

  -- `populate`: what it leaves of the fields, and its error
  unfoldable mutual
    unfolding load_leaf

    pub populate : Fields F → Fields F × Option LoadError
    populate end = (end, none)
    populate (field tag node rest) = after tag (visit tag node) rest (populate rest)

    -- The body of its loop
    pub visit : Tag → Node F → Node F × Option LoadError
    visit tag (leaf kind v) = when_settable tag.settable (leaf kind v) (load_leaf tag kind v)
    visit tag (nested fs) =
        when_settable tag.settable (nested fs) (wrap_fields nested (populate fs))
    visit tag (absent zero_fields) =
        when_settable tag.settable (absent zero_fields) (wrap_fields present (populate zero_fields))
    visit tag (present fs) =
        when_settable tag.settable (present fs) (wrap_fields present (populate fs))

-- What `Load` is given
pub data Target (F : Type 0) : Type 0 where
  no_pointer nil_pointer pointer_to_other : Target F
  pointer_to : Fields F → Target F

-- The validation of a struct that is filled without an error
abbrev pub finish :
    {F : Type 0}
    → (Fields F → Option LoadError)
    → Fields F × Option LoadError
    → Target F × Option LoadError
finish validate (fs, some e) = (pointer_to fs, some e)
finish validate (fs, none) = (pointer_to fs, validate fs)

-- What `Load` leaves of the struct, and its error; `validate` is `validate.Struct`.
unfoldable pub load :
    {F : Type 0}
    → Library F
    → Env
    → (Fields F → Option LoadError)
    → Target F
    → Target F × Option LoadError
unfolding populate
load lib env validate no_pointer = (no_pointer, some not_a_pointer)
load lib env validate nil_pointer = (nil_pointer, some not_a_pointer)
load lib env validate pointer_to_other = (pointer_to_other, some not_a_struct)
load lib env validate (pointer_to fs) = finish validate (populate lib env fs)
