-- ===== src/Config/Complete.antt =====
-- The converse: what `populate` (config/config.go) is to make of a struct, it makes.
use gopher_core.Common.{
  ◌≡◌, ◌↔◌, refl, subst, Bool, true, false, Option, none, some, inl, inr, arith, Bool-cases, ap,
  ◌∙◌,
}
use gopher_core.Common.Dict.{same_key, lookup}
use gopher_core.Common.Text.{Text, is_empty}
use gopher_core.Config.{Env, Kind, Value, Library, LoadError}
use gopher_core.Config.Reads.{Reads, set_field_iff}
use gopher_core.Config.Fields.{
  Tag, Node, leaf, nested, absent, present, Fields, end, field, find_text, load_leaf, populate,
  visit, after, wrap_fields, when_settable, pointer_to, load, finish,
}
use gopher_core.Config.Loading.{
  Given, IsBare, Settles, locked, untouched, set_to, inside, allocated, pointed, Loads, loads_end,
  loads_field, Given-find_text, populate-Loads,
}

module _ {F : Type 0} (lib : Library F) (env : Env) where
  when_true :
      (b : Bool) (node : Node F) (visited : Node F × Option LoadError)
      → b ≡ true
      → when_settable lib env b node visited ≡ visited
  when_true true node visited e = refl
  when_true false node visited e = cc

  when_same :
      (b : Bool) (node : Node F) (visited : Node F × Option LoadError)
      → visited ≡ (node, none)
      → when_settable lib env b node visited ≡ (node, none)
  when_same true node visited e = e
  when_same false node visited e = refl

  when_false :
      (b : Bool) (node : Node F) (visited : Node F × Option LoadError)
      → b ≡ false
      → when_settable lib env b node visited ≡ (node, none)
  when_false true node visited e = cc
  when_false false node visited e = refl

  IsBare-find_text :
      (tag : Tag)
      → lookup tag.env_key env ≡ none
      → is_empty tag.env_default ≡ true
      → find_text env tag ≡ none
  unfolding find_text
  IsBare-find_text tag e d = ground (arith, e, d)

  IsBare-load_leaf :
      (tag : Tag) (kind : Kind) (v : Value F)
      → IsBare env tag
      → load_leaf lib env tag kind v ≡ (leaf kind v, none)
  unfolding load_leaf
  IsBare-load_leaf tag kind v (inl untagged) = simp untagged
  IsBare-load_leaf tag kind v (inr (e, d)) = elim (Bool-cases (same_key tag.env_key "")) [
    | inl untagged ↦ simp untagged
    | inr tagged ↦ simp (tagged, IsBare-find_text tag e d)
  ]

  set_to-load_leaf :
      (tag : Tag) (kind : Kind) (v w : Value F) (s : Text)
      → same_key tag.env_key "" ≡ false
      → Given env tag s
      → Reads lib kind s w
      → load_leaf lib env tag kind v ≡ (leaf kind w, none)
  unfolding load_leaf
  set_to-load_leaf tag kind v w s tagged g r =
      simp (tagged, Given-find_text lib env tag s g, (set_field_iff lib kind s w).1 r)

  visit_locked :
      (tag : Tag) (node : Node F) → tag.settable ≡ false → visit lib env tag node ≡ (node, none)
  unfolding populate
  visit_locked tag (leaf kind v) e = when_false tag.settable _ _ e
  visit_locked tag (nested fs) e = when_false tag.settable _ _ e
  visit_locked tag (absent fs) e = when_false tag.settable _ _ e
  visit_locked tag (present fs) e = when_false tag.settable _ _ e

  mutual
    unfolding populate

    Loads-populate : (fs fs' : Fields F) → Loads lib env fs fs' → populate lib env fs ≡ (fs', none)
    Loads-populate end fs' loads_end = refl
    Loads-populate (field tag node rest) fs' (loads_field {node' = node'} {rest' = rest'} h k) =
        ap (λ visited. after lib env tag visited rest (populate lib env rest))
          (Settles-visit tag node node' h)
        ∙ ap (after lib env tag (node', none) rest) (Loads-populate rest rest' k)

    Settles-visit :
        (tag : Tag) (node node' : Node F)
        → Settles lib env tag node node'
        → visit lib env tag node ≡ (node', none)
    Settles-visit tag node node' (locked e) = visit_locked tag node e
    Settles-visit tag (leaf kind v) node' (untouched bare) =
        when_same tag.settable _ _ (IsBare-load_leaf tag kind v bare)
    Settles-visit tag (leaf kind v) node' (set_to {w = w} s y n g r) =
        when_true tag.settable _ _ y ∙ set_to-load_leaf tag kind v w s n g r
    Settles-visit tag (nested fs) node' (inside {fs' = fs'} y h) =
        when_true tag.settable _ _ y ∙ ap (wrap_fields lib env nested) (Loads-populate fs fs' h)
    Settles-visit tag (absent fs) node' (allocated {fs' = fs'} y h) =
        when_true tag.settable _ _ y ∙ ap (wrap_fields lib env present) (Loads-populate fs fs' h)
    Settles-visit tag (present fs) node' (pointed {fs' = fs'} y h) =
        when_true tag.settable _ _ y ∙ ap (wrap_fields lib env present) (Loads-populate fs fs' h)

  pub populate_iff :
      (fs fs' : Fields F) → (populate lib env fs ≡ (fs', none)) ↔ Loads lib env fs fs'
  populate_iff fs fs' = (
    (λ e. subst (Loads lib env fs) (ap (λ r. r.0) e) (populate-Loads lib env fs (ap (λ r. r.1) e))),
    Loads-populate fs fs',
  )

  finish-none :
      (validate : Fields F → Option LoadError) (r : Fields F × Option LoadError) (fs' : Fields F)
      → (finish validate r ≡ (pointer_to fs', none)) ↔ ((r ≡ (fs', none)) × (validate fs' ≡ none))
  finish-none validate (fs, some e) fs' = (λ h. ground (arith, h), λ h. ground (arith, h))
  finish-none validate (fs, none) fs' =
      (λ h. (ground (arith, h), cc), λ h. ground (arith, h.0, h.1))

  -- `Load` ends without an error exactly if every field can be loaded as its tags, the environment and
  -- its kind say, and the validator accepts the outcome; the outcome is then those fields. Fields that
  -- cannot be set, or have no text, keep their values, and a nil pointer to a struct is allocated.
  pub load_iff :
      (validate : Fields F → Option LoadError) (fs fs' : Fields F)
      → (load lib env validate (pointer_to fs) ≡ (pointer_to fs', none))
        ↔ (Loads lib env fs fs' × (validate fs' ≡ none))
  unfolding load
  load_iff validate fs fs' =
      let p = populate_iff fs fs' in
      let f = finish-none validate (populate lib env fs) fs' in
      ((λ h. (p.0 (f.0 h).0, (f.0 h).1)), (λ h. f.1 (p.1 h.0, h.1)))
