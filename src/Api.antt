-- ===== src/Api.antt =====
-- The package isk/api: the HTTP handlers.
pub mod Format
pub mod Rows
pub mod Auth
pub mod View
pub mod Answer
pub mod Prefs
pub mod Login
pub mod Pages
