-- ===== src/Db.antt =====
-- dbkit: connections (dbkit/db.go) and migrations (dbkit/migration.go). sqlx and golang-migrate are
-- parameters.
pub mod Connection
pub mod Migration
mod Tests
