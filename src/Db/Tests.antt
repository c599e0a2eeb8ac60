-- ===== src/Db/Tests.antt =====
-- A migrator whose source does not close, and the theorem about it.
use gopher_core.Common.{ℕ, suc, ◌≡◌, refl, false, some, none, [], inl}
use gopher_core.Common.Int.{pos, negsuc}
use gopher_core.Runtime.{other, sentinel, no_change, is}
use gopher_core.Db.Connection.{connect, dsn_required}
use gopher_core.Db.Migration.{
  Migrator, Closes, run_migrations, rollback_migrations, migrations_close,
}

-- Its state counts the calls of `Close`.
abbrev stubborn : Migrator ℕ
stubborn = record {
  up = λ s. (some (sentinel no_change), s);
  down = λ s. (none, s);
  steps = λ n s. (some (other 4), s);
  version = λ s. ((7, false), none);
  close = λ s. ((some (other 9), none), suc s);
}

migrations_close_example :
    Closes stubborn (stubborn.up 0) (run_migrations (inl stubborn) 0)
    × Closes stubborn (stubborn.down 0) (rollback_migrations (inl stubborn) (pos 0) 0)
    × Closes stubborn (stubborn.down 0) (rollback_migrations (inl stubborn) (negsuc 1) 0)
    × Closes stubborn (stubborn.steps (negsuc 1) 0) (rollback_migrations (inl stubborn) (pos 2) 0)
migrations_close_example = migrations_close stubborn 1 0

-- Two steps back are made as such.
two_back : (rollback_migrations (inl stubborn) (pos 2) 0).0 ≡ some (other 4)
unfolding rollback_migrations is
two_back = refl

no_source : connect (λ d s. none) "postgres" "" [] ≡ dsn_required
unfolding connect
no_source = refl
