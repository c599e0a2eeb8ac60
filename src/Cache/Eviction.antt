-- ===== src/Cache/Eviction.antt =====
-- What eviction, eager or lazy, takes away (cachekit/memory.go).
use gopher_core.Common.{
  ℕ, ◌≡◌, refl, Bool, true, false, ◌&&◌, Option, none, some, List, [], ◌∷◌, String, arith,
  if◌then◌else◌, Bool-cases, Option-cases, ◌⊎◌, ap, subst, sym, ◌∙◌, All, inl, inr,
}
use gopher_core.Common.Int.{ℤ}
use gopher_core.Common.Dict.{lookup, lookup-erase, same_key, same_key_eq}
use gopher_core.Cache.{
  Item, Store, has_expired, same_time, delete_if_unchanged, scan, sweep, evict_expired,
}

-- An entry that is gone for a reader at the time `now`.
abbrev pub is_stale : ℕ → Option Item → Bool
is_stale now none = true
is_stale now (some item) = has_expired now item.expiration

same_time-has_expired :
    (now : ℕ) (a b : Option ℤ) → same_time a b ≡ true → has_expired now a ≡ has_expired now b
same_time-has_expired now a b h = ground arith

abbrev pub unchanged : Option ℤ → Option Item → Bool
unchanged exp none = false
unchanged exp (some item) = same_time item.expiration exp

-- The one conditional deletion, by what the entry of its key is.
pub lookup-delete :
    (key k : String) (exp : Option ℤ) (s : Store)
    → lookup k (delete_if_unchanged key exp s).items
      ≡ (if same_key key k && unchanged exp (lookup key s.items) then none else lookup k s.items)
unfolding delete_if_unchanged
lookup-delete key k exp s = elim (Option-cases (lookup key s.items)) [
  | inl e ↦ rw (e, delete_if_unchanged) (ground arith)
  | inr (item, e) ↦
      rw (e, delete_if_unchanged)
        (elim (Bool-cases (same_time item.expiration exp)) [
          | inl t ↦ rw t (ground (arith, lookup-erase key k s.items))
          | inr f ↦ rw f (ground arith)
        ])
]

sweep_of_none :
    (k : String) (es : List (String × Option ℤ)) (s : Store)
    → lookup k s.items ≡ none
    → lookup k (sweep es s).items ≡ none
unfolding sweep
sweep_of_none k [] s h = h
sweep_of_none k ((key, exp) ∷ es) s h =
    sweep_of_none k es (delete_if_unchanged key exp s) (ground (arith, lookup-delete key k exp s))

abbrev Expired : ℕ → List (String × Option ℤ) → Type 0
Expired now = All (λ e. has_expired now e.1 ≡ true)

scan-Expired : (now : ℕ) (items : List (String × Item)) → Expired now (scan now items)
unfolding scan
scan-Expired now [] = tt
scan-Expired now ((key, item) ∷ items) = ground (arith, scan-Expired now items)

unchanged_stale :
    (now : ℕ) (exp : Option ℤ) (o : Option Item)
    → has_expired now exp ≡ true
    → unchanged exp o ≡ true
    → is_stale now o ≡ true
unchanged_stale now exp none old h = refl
unchanged_stale now exp (some item) old h = same_time-has_expired now item.expiration exp h ∙ old

pub same_time_refl : (a : Option ℤ) → same_time a a ≡ true
same_time_refl a = ground arith

-- A deletion by an expired expiry leaves every entry that is fresh then.
pub delete_keeps_fresh :
    (now : ℕ) (key k : String) (exp : Option ℤ) (s : Store)
    → has_expired now exp ≡ true
    → is_stale now (lookup k s.items) ≡ false
    → lookup k (delete_if_unchanged key exp s).items ≡ lookup k s.items
delete_keeps_fresh now key k exp s old fresh = elim (Bool-cases (same_key key k)) [
  | inl same ↦ ground (
    arith,
    lookup-delete key k exp s,
    ap (λ j. lookup j s.items) (same_key_eq key k same),
    unchanged_stale now exp (lookup key s.items) old,
  )
  | inr apart ↦ ground (arith, lookup-delete key k exp s)
]

sweep_keeps_fresh :
    (now : ℕ) (k : String) (es : List (String × Option ℤ)) (s : Store)
    → Expired now es
    → is_stale now (lookup k s.items) ≡ false
    → lookup k (sweep es s).items ≡ lookup k s.items
unfolding sweep
sweep_keeps_fresh now k [] s x fresh = refl
sweep_keeps_fresh now k ((key, exp) ∷ es) s x fresh =
    let e = delete_keeps_fresh now key k exp s x.0 fresh in
    sweep_keeps_fresh now k es (delete_if_unchanged key exp s) x.1
      (subst (λ o. is_stale now o ≡ false) (sym e) fresh)
    ∙ e

-- Eviction never takes an entry that has not expired at its start, whatever the other goroutines do
-- between its two phases, a renewal of an expired key included.
pub evict_keeps_fresh :
    (now : ℕ) (others : Store → Store) (k : String) (s : Store)
    → is_stale now (lookup k (others s).items) ≡ false
    → lookup k (evict_expired now others s).items ≡ lookup k (others s).items
unfolding evict_expired
evict_keeps_fresh now others k s fresh =
    sweep_keeps_fresh now k (scan now s.items) (others s) (scan-Expired now s.items) fresh

delete_clears :
    (key k : String) (item : Item) (s : Store)
    → same_key key k ≡ true
    → (lookup k s.items ≡ some item) ⊎ (lookup k s.items ≡ none)
    → lookup k (delete_if_unchanged key item.expiration s).items ≡ none
delete_clears key k item s same h = ground (
  arith,
  lookup-delete key k item.expiration s,
  ap (λ j. lookup j s.items) (same_key_eq key k same),
  same_time_refl item.expiration,
)

sweep-scan_clears :
    (now : ℕ) (k : String) (items : List (String × Item)) (s : Store)
    → is_stale now (lookup k items) ≡ true
    → (lookup k s.items ≡ lookup k items) ⊎ (lookup k s.items ≡ none)
    → lookup k (sweep (scan now items) s).items ≡ none
unfolding scan sweep lookup
sweep-scan_clears now k [] s stale h = ground (arith, h)
sweep-scan_clears now k ((key, item) ∷ items) s stale h = elim (Bool-cases (same_key key k)) [
  | inl same ↦
      let old : has_expired now item.expiration ≡ true = ground arith in
      let gone : (lookup k s.items ≡ some item) ⊎ (lookup k s.items ≡ none) = ground arith in
      rw old (
        sweep_of_none k (scan now items) (delete_if_unchanged key item.expiration s)
          (delete_clears key k item s same gone))
  | inr apart ↦
      let stale' : is_stale now (lookup k items) ≡ true = ground arith in
      let left : (lookup k s.items ≡ lookup k items) ⊎ (lookup k s.items ≡ none) = ground arith in
      let here = sweep-scan_clears now k items s stale' left in
      let there =
        sweep-scan_clears now k items (delete_if_unchanged key item.expiration s) stale'
          (ground (arith, lookup-delete key k item.expiration s)) in
      ground (arith, here, there)
]

-- With nothing in between, eviction takes exactly the entries that have expired.
pub evict_exact :
    (now : ℕ) (k : String) (s : Store)
    → lookup k (evict_expired now (λ x. x) s).items
      ≡ (if is_stale now (lookup k s.items) then none else lookup k s.items)
unfolding evict_expired
evict_exact now k s = elim (Bool-cases (is_stale now (lookup k s.items))) [
  | inl stale ↦ rw stale (sweep-scan_clears now k s.items s stale (inl refl))
  | inr fresh ↦
      rw fresh (sweep_keeps_fresh now k (scan now s.items) s (scan-Expired now s.items) fresh)
]

pub delete-heap :
    (key : String) (exp : Option ℤ) (s : Store)
    → ((delete_if_unchanged key exp s).heap ≡ s.heap)
      × ((delete_if_unchanged key exp s).next ≡ s.next)
unfolding delete_if_unchanged
delete-heap key exp s = ground arith

pub sweep-heap :
    (es : List (String × Option ℤ)) (s : Store)
    → ((sweep es s).heap ≡ s.heap) × ((sweep es s).next ≡ s.next)
unfolding sweep
sweep-heap [] s = (refl, refl)
sweep-heap ((key, exp) ∷ es) s =
    ground (arith, sweep-heap es (delete_if_unchanged key exp s), delete-heap key exp s)

-- Eviction touches no slice.
pub evict-heap :
    (now : ℕ) (others : Store → Store) (s : Store)
    → ((evict_expired now others s).heap ≡ (others s).heap)
      × ((evict_expired now others s).next ≡ (others s).next)
unfolding evict_expired
evict-heap now others s = sweep-heap (scan now s.items) (others s)
