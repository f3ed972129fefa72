-- ===== src/Store.antt =====
-- The rows of the database tables (the TypeORM entities under src/modules/*/entities) and the
-- repository calls on them. Identifiers and tokens are only compared, so they are numbers; an
-- instant is a number of milliseconds since the epoch.
pub mod Rows
pub mod Call
pub mod Table
pub mod TableLaws
pub mod Db
pub mod SaveEach
pub mod Frame
