-- ===== src/Config/Failing.antt =====
-- How `populate` (config/config.go) fails: at the first field that cannot be set.
use gopher_core.Common.{
  ◌≡◌, refl, Bool, true, false, Option, none, some, inl, inr, arith, Bool-cases,
}
use gopher_core.Common.Dict.{same_key}
use gopher_core.Common.Text.{Text}
use gopher_core.Config.{
  Env, Kind, Value, Library, LoadError, in_field, Parsed, parsed, failed, set_field,
}
use gopher_core.Config.Reads.{Reads, set_field_iff}
use gopher_core.Config.Fields.{
  Tag, Node, leaf, nested, absent, present, Fields, end, field, find_text, load_leaf, set_text,
  keep_or_set, populate, visit, after, wrap_fields, when_settable,
}
use gopher_core.Config.Loading.{Given, Settles, find_text-Given, visit-Settles}

module _ {F : Type 0} (lib : Library F) (env : Env) where
  mutual
    -- The field that fails, before and after, with the error
    pub data Fails : Tag → Node F → Node F → LoadError → Type 0 where
      unreadable :
          {tag : Tag} {kind : Kind} {v : Value F} {e : LoadError} (s : Text) (why : LoadError)
          → Given env tag s
          → ((w : Value F) → Reads lib kind s w → ⊥)
          → e ≡ in_field tag.name why
          → Fails tag (leaf kind v) (leaf kind v) e
      fails_inside :
          {tag : Tag} {fs fs' : Fields F} {e : LoadError}
          → Stops fs fs' e
          → Fails tag (nested fs) (nested fs') e
      fails_allocated :
          {tag : Tag} {fs fs' : Fields F} {e : LoadError}
          → Stops fs fs' e
          → Fails tag (absent fs) (present fs') e
      fails_pointed :
          {tag : Tag} {fs fs' : Fields F} {e : LoadError}
          → Stops fs fs' e
          → Fails tag (present fs) (present fs') e

    -- The fields before the one that fails are loaded, and those after it stay as they are.
    pub data Stops : Fields F → Fields F → LoadError → Type 0 where
      here :
          {tag : Tag} {node node' : Node F} {rest : Fields F} {e : LoadError}
          → tag.settable ≡ true
          → Fails tag node node' e
          → Stops (field tag node rest) (field tag node' rest) e
      later :
          {tag : Tag} {node node' : Node F} {rest rest' : Fields F} {e : LoadError}
          → Settles lib env tag node node'
          → Stops rest rest' e
          → Stops (field tag node rest) (field tag node' rest') e

  unreadable_of_failed :
      (kind : Kind) (s : Text) (e : LoadError)
      → set_field lib kind s ≡ failed e
      → (w : Value F) → Reads lib kind s w
      → ⊥
  unreadable_of_failed kind s e h w r = ground (arith, h, (set_field_iff lib kind s w).1 r)

  keep_or_set-Fails :
      (tag : Tag) (kind : Kind) (v : Value F) (s : Text) (p : Parsed (Value F)) (e : LoadError)
      → Given env tag s
      → set_field lib kind s ≡ p
      → (keep_or_set lib env tag kind v p).1 ≡ some e
      → Fails tag (leaf kind v) (keep_or_set lib env tag kind v p).0 e
  keep_or_set-Fails tag kind v s (parsed w) e g q h = ground (arith, h)
  keep_or_set-Fails tag kind v s (failed d) e g q h =
      unreadable s d g (unreadable_of_failed kind s d q) (ground (arith, h))

  set_text-Fails :
      (tag : Tag) (kind : Kind) (v : Value F) (o : Option Text) (e : LoadError)
      → find_text env tag ≡ o
      → (set_text lib env tag kind v o).1 ≡ some e
      → Fails tag (leaf kind v) (set_text lib env tag kind v o).0 e
  set_text-Fails tag kind v none e q h = ground (arith, h)
  set_text-Fails tag kind v (some s) e q h =
      keep_or_set-Fails tag kind v s (set_field lib kind s) e (find_text-Given lib env tag s q) refl
        h

  load_leaf-Fails :
      (tag : Tag) (kind : Kind) (v : Value F) (e : LoadError)
      → (load_leaf lib env tag kind v).1 ≡ some e
      → Fails tag (leaf kind v) (load_leaf lib env tag kind v).0 e
  unfolding load_leaf
  load_leaf-Fails tag kind v e h = elim (Bool-cases (same_key tag.env_key "")) [
    | inl untagged ↦ ground (arith, h, untagged)
    | inr tagged ↦
        simp tagged (set_text-Fails tag kind v (find_text env tag) e refl (simp tagged at h))
  ]

  abbrev FailsAt : Tag → Node F → Node F × Option LoadError → Type 0
  FailsAt tag node visited =
      (e : LoadError) → visited.1 ≡ some e → (tag.settable ≡ true) × Fails tag node visited.0 e

  when_settable-Fails :
      (tag : Tag) (b : Bool) (node : Node F) (visited : Node F × Option LoadError)
      → tag.settable ≡ b
      → ((e : LoadError) → visited.1 ≡ some e → Fails tag node visited.0 e)
      → FailsAt tag node (when_settable lib env b node visited)
  when_settable-Fails tag true node visited y h e k = (y, h e k)
  when_settable-Fails tag false node visited y h e k = ground (arith, k)

  after-Stops :
      (tag : Tag) (node : Node F) (visited : Node F × Option LoadError) (rest : Fields F)
      (loaded : Fields F × Option LoadError) (e : LoadError)
      → (visited.1 ≡ none → Settles lib env tag node visited.0)
      → FailsAt tag node visited
      → (loaded.1 ≡ some e → Stops rest loaded.0 e)
      → (after lib env tag visited rest loaded).1 ≡ some e
      → Stops (field tag node rest) (after lib env tag visited rest loaded).0 e
  after-Stops tag node (node', some d) rest loaded e settles fails stops h =
      let (y, f) = fails e h in here y f
  after-Stops tag node (node', none) rest (rest', o) e settles fails stops h =
      later (settles refl) (stops h)

  mutual
    unfolding populate

    populate_stops :
        (fs : Fields F) (e : LoadError)
        → (populate lib env fs).1 ≡ some e
        → Stops fs (populate lib env fs).0 e
    populate_stops end e h = ground (arith, h)
    populate_stops (field tag node rest) e h =
        after-Stops tag node (visit lib env tag node) rest (populate lib env rest) e
          (visit-Settles lib env tag node) (visit_fails tag node) (populate_stops rest e) h

    visit_fails : (tag : Tag) (node : Node F) → FailsAt tag node (visit lib env tag node)
    visit_fails tag (leaf kind v) =
        when_settable-Fails tag tag.settable _ (load_leaf lib env tag kind v) refl
          (load_leaf-Fails tag kind v)
    visit_fails tag (nested fs) =
        when_settable-Fails tag tag.settable _ (wrap_fields lib env nested (populate lib env fs))
          refl (λ e h. fails_inside (populate_stops fs e h))
    visit_fails tag (absent fs) =
        when_settable-Fails tag tag.settable _ (wrap_fields lib env present (populate lib env fs))
          refl (λ e h. fails_allocated (populate_stops fs e h))
    visit_fails tag (present fs) =
        when_settable-Fails tag tag.settable _ (wrap_fields lib env present (populate lib env fs))
          refl (λ e h. fails_pointed (populate_stops fs e h))

  -- When `populate` ends with an error, a field that can be set has a text that reads as no value of its
  -- kind: that field keeps its value, the fields before it are loaded, and those after it stay as they
  -- are; the error is of the field's name.
  pub populate-Stops :
      (fs : Fields F) (e : LoadError)
      → (populate lib env fs).1 ≡ some e
      → Stops fs (populate lib env fs).0 e
  populate-Stops fs e h = populate_stops fs e h
