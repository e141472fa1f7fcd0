-- ===== src/Db/Statements.antt =====
-- The prepared statements of isk/db/query.go, over the tables that sql/ declares: one definition for
-- each query text. A table is the list of its rows in the order in which a scan returns them, so
-- that LIMIT keeps a prefix; an INSERT adds the row at the end, and fails where the primary key is
-- taken.
pub mod Tables
pub mod Characters
pub mod Gifts
pub mod Users
pub mod Preferences
