-- ===== src/Worker.antt =====
-- The package isk/worker: it pulls wallet journals and contracts from ESI and enters what it finds.
pub mod Esi
pub mod Names
pub mod Paging
pub mod Wallet
pub mod Contracts
pub mod Maint
pub mod Process
pub mod Prices
