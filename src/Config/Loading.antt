-- ===== src/Config/Loading.antt =====
-- What `populate` and `Load` (config/config.go) make of a struct, apart from their code.
use gopher_core.Common.{
  ◌≡◌, ◌⊎◌, refl, Bool, true, false, Option, none, some, inl, inr, arith, Bool-cases, Option-cases,
}
use gopher_core.Common.Dict.{same_key, lookup}
use gopher_core.Common.Text.{Text, is_empty}
use gopher_core.Config.{Env, Kind, Value, Library, LoadError, Parsed, parsed, failed, set_field}
use gopher_core.Config.Reads.{Reads, set_field_iff}
use gopher_core.Config.Fields.{
  Tag, Node, leaf, nested, absent, present, Fields, end, field, find_text, load_leaf, set_text,
  keep_or_set, populate, visit, after, wrap_fields, when_settable,
}

-- Where the text for a field comes from: its variable, or else its default.
pub data Given (env : Env) (tag : Tag) (s : Text) : Type 0 where
  by_env : lookup tag.env_key env ≡ some s → Given env tag s
  by_default :
      lookup tag.env_key env ≡ none
      → is_empty tag.env_default ≡ false
      → s ≡ tag.env_default
      → Given env tag s

-- There is no text for a field: it has no `env` tag, or neither the variable nor a default.
abbrev pub IsBare : Env → Tag → Type 0
IsBare env tag =
    (same_key tag.env_key "" ≡ true)
    ⊎ ((lookup tag.env_key env ≡ none) × (is_empty tag.env_default ≡ true))

module _ {F : Type 0} (lib : Library F) (env : Env) where
  mutual
    -- One field, before and after
    pub data Settles : Tag → Node F → Node F → Type 0 where
      locked : {tag : Tag} {node : Node F} → tag.settable ≡ false → Settles tag node node
      untouched :
          {tag : Tag} {kind : Kind} {v : Value F}
          → IsBare env tag
          → Settles tag (leaf kind v) (leaf kind v)
      set_to :
          {tag : Tag} {kind : Kind} {v w : Value F} (s : Text)
          → tag.settable ≡ true
          → same_key tag.env_key "" ≡ false
          → Given env tag s
          → Reads lib kind s w
          → Settles tag (leaf kind v) (leaf kind w)
      inside :
          {tag : Tag} {fs fs' : Fields F}
          → tag.settable ≡ true
          → Loads fs fs'
          → Settles tag (nested fs) (nested fs')
      allocated :
          {tag : Tag} {fs fs' : Fields F}
          → tag.settable ≡ true
          → Loads fs fs'
          → Settles tag (absent fs) (present fs')
      pointed :
          {tag : Tag} {fs fs' : Fields F}
          → tag.settable ≡ true
          → Loads fs fs'
          → Settles tag (present fs) (present fs')

    -- All fields of a struct, before and after
    pub data Loads : Fields F → Fields F → Type 0 where
      loads_end : Loads end end
      loads_field :
          {tag : Tag} {node node' : Node F} {rest rest' : Fields F}
          → Settles tag node node'
          → Loads rest rest'
          → Loads (field tag node rest) (field tag node' rest')

  pub find_text-Given : (tag : Tag) (s : Text) → find_text env tag ≡ some s → Given env tag s
  unfolding find_text
  find_text-Given tag s h = elim (Option-cases (lookup tag.env_key env)) [
    | inl e ↦ elim (Bool-cases (is_empty tag.env_default)) [
      | inl y ↦ ground (arith, h, e, y)
      | inr n ↦ by_default e n (ground (arith, h, e, n))
    ]
    | inr (t, e) ↦ by_env (ground (arith, h, e))
  ]

  pub Given-find_text : (tag : Tag) (s : Text) → Given env tag s → find_text env tag ≡ some s
  unfolding find_text
  Given-find_text tag s (by_env e) = ground (arith, e)
  Given-find_text tag s (by_default e n q) = ground (arith, e, n, q)

  pub find_text-bare :
      (tag : Tag)
      → find_text env tag ≡ none
      → (lookup tag.env_key env ≡ none) × (is_empty tag.env_default ≡ true)
  unfolding find_text
  find_text-bare tag h = ground (arith, h)

  keep_or_set-Settles :
      (tag : Tag) (kind : Kind) (v : Value F) (s : Text) (p : Parsed (Value F))
      → tag.settable ≡ true
      → same_key tag.env_key "" ≡ false
      → Given env tag s
      → set_field lib kind s ≡ p
      → (keep_or_set lib env tag kind v p).1 ≡ none
      → Settles tag (leaf kind v) (keep_or_set lib env tag kind v p).0
  keep_or_set-Settles tag kind v s (parsed w) y n g e h =
      set_to s y n g ((set_field_iff lib kind s w).0 e)
  keep_or_set-Settles tag kind v s (failed d) y n g e h = ground (arith, h)

  pub set_text-Settles :
      (tag : Tag) (kind : Kind) (v : Value F) (o : Option Text)
      → tag.settable ≡ true
      → same_key tag.env_key "" ≡ false
      → find_text env tag ≡ o
      → (set_text lib env tag kind v o).1 ≡ none
      → Settles tag (leaf kind v) (set_text lib env tag kind v o).0
  set_text-Settles tag kind v none y n e h = untouched (inr (find_text-bare tag e))
  set_text-Settles tag kind v (some s) y n e h =
      keep_or_set-Settles tag kind v s (set_field lib kind s) y n (find_text-Given tag s e) refl h

  load_leaf-Settles :
      (tag : Tag) (kind : Kind) (v : Value F)
      → tag.settable ≡ true
      → (load_leaf lib env tag kind v).1 ≡ none
      → Settles tag (leaf kind v) (load_leaf lib env tag kind v).0
  unfolding load_leaf
  load_leaf-Settles tag kind v y h = elim (Bool-cases (same_key tag.env_key "")) [
    | inl untagged ↦ simp untagged (untouched (inl untagged))
    | inr tagged ↦
        simp tagged
          (set_text-Settles tag kind v (find_text env tag) y tagged refl (simp tagged at h))
  ]

  pub when_settable-Settles :
      (tag : Tag) (b : Bool) (node : Node F) (visited : Node F × Option LoadError)
      → tag.settable ≡ b
      → (b ≡ true → visited.1 ≡ none → Settles tag node visited.0)
      → (when_settable lib env b node visited).1 ≡ none
      → Settles tag node (when_settable lib env b node visited).0
  when_settable-Settles tag true node visited e h k = h refl k
  when_settable-Settles tag false node visited e h k = locked e

  pub after-Loads :
      (tag : Tag) (node : Node F) (visited : Node F × Option LoadError) (rest : Fields F)
      (loaded : Fields F × Option LoadError)
      → (visited.1 ≡ none → Settles tag node visited.0)
      → (loaded.1 ≡ none → Loads rest loaded.0)
      → (after lib env tag visited rest loaded).1 ≡ none
      → Loads (field tag node rest) (after lib env tag visited rest loaded).0
  after-Loads tag node (node', some e) rest loaded h k l = ground (arith, l)
  after-Loads tag node (node', none) rest (rest', o) h k l = loads_field (h refl) (k l)

  mutual
    unfolding populate

    pub populate-Loads :
        (fs : Fields F) → (populate lib env fs).1 ≡ none → Loads fs (populate lib env fs).0
    populate-Loads end h = loads_end
    populate-Loads (field tag node rest) h =
        after-Loads tag node (visit lib env tag node) rest (populate lib env rest)
          (visit-Settles tag node) (populate-Loads rest) h

    pub visit-Settles :
        (tag : Tag) (node : Node F)
        → (visit lib env tag node).1 ≡ none
        → Settles tag node (visit lib env tag node).0
    visit-Settles tag (leaf kind v) h =
        when_settable-Settles tag tag.settable _ (load_leaf lib env tag kind v) refl
          (load_leaf-Settles tag kind v) h
    visit-Settles tag (nested fs) h =
        when_settable-Settles tag tag.settable _ (wrap_fields lib env nested (populate lib env fs))
          refl (λ y n. inside y (populate-Loads fs n)) h
    visit-Settles tag (absent fs) h =
        when_settable-Settles tag tag.settable _ (wrap_fields lib env present (populate lib env fs))
          refl (λ y n. allocated y (populate-Loads fs n)) h
    visit-Settles tag (present fs) h =
        when_settable-Settles tag tag.settable _ (wrap_fields lib env present (populate lib env fs))
          refl (λ y n. pointed y (populate-Loads fs n)) h
