-- ===== src/Db.antt =====
-- The package isk/db: the records it stores and returns, the totals of each character, and the
-- statements it runs against the tables.
pub mod Types
pub mod PrefTypes
pub mod Totals
pub mod Store
pub mod Statements
pub mod Names
pub mod Users
pub mod Characters
pub mod Donations
pub mod Contracts
pub mod Preferences
pub mod Details
pub mod Top
pub mod Json
