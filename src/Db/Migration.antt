-- ===== src/Db/Migration.antt =====
-- dbkit/migration.go: migrations, with the deferred `Close`. The migrator is a parameter, over a
-- state `S` of the database.
use gopher_core.Common.{
  ℕ, suc, ◌≡◌, refl, ap, subst, arith, Bool, true, false, Bool-cases, Option, some, none,
  if◌then◌else◌, inl, inr, ◌⊎◌,
}
use gopher_core.Common.Int.{ℤ, pos, negsuc, ◌-ℤ◌, leb_ℤ}
use gopher_core.Runtime.{Err, is, no_change, nil_version}

-- The migrator that `migrate.NewWithDatabaseInstance` makes. `Close` returns the error of the source
-- and that of the database.
pub record Migrator (S : Type 0) : Type 0 where
  pub up : S → Option Err × S
  pub down : S → Option Err × S
  pub steps : ℤ → S → Option Err × S
  pub version : S → (ℕ × Bool) × Option Err
  pub close : S → (Option Err × Option Err) × S

-- What the deferred function leaves in `err`
abbrev pub first_of : Option Err → Option Err × Option Err → Option Err
first_of (some e) errs = some e
first_of none (some e, db_err) = some e
first_of none (none, db_err) = db_err

-- `errors.Is(err, migrate.ErrNoChange)` counts as success.
abbrev pub unless_no_change : Option Err → Option Err
unless_no_change none = none
unless_no_change (some e) = if is e no_change then none else some e

module _ {S : Type 0} where
  -- The deferred function
  unfoldable pub close_after : Migrator S → Option Err × S → Option Err × S
  close_after m (err, s) = let q = m.close s in (first_of err q.0, q.1)

  -- `RunMigrations`, of the migrator or the error that there is none
  unfoldable pub run_migrations : Migrator S ⊎ Err → S → Option Err × S
  unfolding close_after
  run_migrations (inr e) s = (some e, s)
  run_migrations (inl m) s = let q = m.up s in close_after m (unless_no_change q.0, q.1)

  -- The migration that `RollbackMigrations` makes
  unfoldable pub roll_back : Migrator S → ℤ → S → Option Err × S
  roll_back m steps s = if leb_ℤ steps (pos 0) then m.down s else m.steps (pos 0 -ℤ steps) s

  unfoldable pub rollback_migrations : Migrator S ⊎ Err → ℤ → S → Option Err × S
  unfolding close_after roll_back
  rollback_migrations (inr e) steps s = (some e, s)
  rollback_migrations (inl m) steps s =
      let q = roll_back m steps s in close_after m (unless_no_change q.0, q.1)

pub record MigrationVersion : Type 0 where
  pub version : ℕ
  pub dirty : Bool

abbrev pub no_version : MigrationVersion
no_version = record { version = 0; dirty = false }

-- The version and the error, before the deferred function
abbrev pub read_version : (ℕ × Bool) × Option Err → MigrationVersion × Option Err
read_version ((n, dirty), none) = (record { version = n; dirty = dirty }, none)
read_version ((n, dirty), some e) = (no_version, if is e nil_version then none else some e)

unfoldable pub get_migration_version :
    {S : Type 0} → Migrator S ⊎ Err → S → (MigrationVersion × Option Err) × S
unfolding close_after
get_migration_version (inr e) s = ((no_version, some e), s)
get_migration_version (inl m) s =
    let q = read_version (m.version s) in let r = close_after m (q.1, s) in ((q.0, r.0), r.1)

-- A migration that gives no error, or `ErrNoChange`, wrapped or not
abbrev pub Passes : Option Err → Type 0
Passes failed = (failed ≡ none) ⊎ ((e : Err) × (failed ≡ some e) × (is e no_change ≡ true))

-- What a migration ends as: its error, or else that of closing the source, or else that of closing the
-- database
abbrev pub Ends : Option Err → Option Err × Option Err → Option Err → Type 0
Ends failed (source, db) none = Passes failed × ((source ≡ none) × (db ≡ none))
Ends failed (source, db) (some e) =
    ((failed ≡ some e) × (is e no_change ≡ false))
    ⊎ (Passes failed × ((source ≡ some e) ⊎ ((source ≡ none) × (db ≡ some e))))

first_of-Ends :
    (failed : Option Err) (errs : Option Err × Option Err)
    → Passes failed
    → Ends failed errs (first_of none errs)
first_of-Ends failed (some d, db) h = inr (h, inl refl)
first_of-Ends failed (none, some d) h = inr (h, inr (refl, refl))
first_of-Ends failed (none, none) h = (h, (refl, refl))

unless_no_change-Ends :
    (failed : Option Err) (errs : Option Err × Option Err)
    → Ends failed errs (first_of (unless_no_change failed) errs)
unless_no_change-Ends none errs = first_of-Ends none errs (inl refl)
unless_no_change-Ends (some e) errs = elim (Bool-cases (is e no_change)) [
  | inl same ↦ rw same (first_of-Ends (some e) errs (inr (e, refl, same)))
  | inr other ↦ rw other (inl (refl, other))
]

-- The run is this migration and then one `Close`.
abbrev pub Closes : {S : Type 0} → Migrator S → Option Err × S → Option Err × S → Type 0
Closes m q r = Ends q.0 (m.close q.1).0 r.0 × (r.1 ≡ (m.close q.1).1)

-- No count, and a negative one, go all the way down.
roll_back_down : {S : Type 0} (m : Migrator S) (n : ℕ) (s : S) → roll_back m (negsuc n) s ≡ m.down s
unfolding roll_back
roll_back_down m n s = ground arith

minus : (n : ℕ) → pos 0 -ℤ pos (suc n) ≡ negsuc n
unfolding ◌-ℤ◌
minus n = ground arith

roll_back_steps :
    {S : Type 0} (m : Migrator S) (n : ℕ) (s : S)
    → roll_back m (pos (suc n)) s ≡ m.steps (negsuc n) s
unfolding roll_back
roll_back_steps m n s = ground (arith, ap (λ k. m.steps k s) (minus n))

rollback_migrations-Closes :
    {S : Type 0} (m : Migrator S) (steps : ℤ) (s : S) (q : Option Err × S)
    → roll_back m steps s ≡ q
    → Closes m q (rollback_migrations (inl m) steps s)
unfolding rollback_migrations close_after
rollback_migrations-Closes m steps s q e =
    subst
      (λ p.
        Closes m p
          (close_after m (unless_no_change (roll_back m steps s).0, (roll_back m steps s).1)))
      e (unless_no_change-Ends (roll_back m steps s).0 _, refl)

-- With a migrator, `RunMigrations` migrates up; `RollbackMigrations` migrates all the way down for 0 steps or
-- fewer, and for n + 1 steps makes that many backwards. Each ends with the migration's own error, where
-- `ErrNoChange` is none, or else with that of closing the source, or else with that of closing the
-- database; and on every path what is left is the state after the migration and then one `Close`.
pub migrations_close :
    {S : Type 0} (m : Migrator S) (n : ℕ) (s : S)
    → Closes m (m.up s) (run_migrations (inl m) s)
      × Closes m (m.down s) (rollback_migrations (inl m) (pos 0) s)
      × Closes m (m.down s) (rollback_migrations (inl m) (negsuc n) s)
      × Closes m (m.steps (negsuc n) s) (rollback_migrations (inl m) (pos (suc n)) s)
unfolding run_migrations roll_back close_after
migrations_close m n s = (
  (unless_no_change-Ends (m.up s).0 (m.close (m.up s).1).0, refl),
  rollback_migrations-Closes m (pos 0) s (m.down s) refl,
  rollback_migrations-Closes m (negsuc n) s (m.down s) (roll_back_down m n s),
  rollback_migrations-Closes m (pos (suc n)) s (m.steps (negsuc n) s) (roll_back_steps m n s),
)
