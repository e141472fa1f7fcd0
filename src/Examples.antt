-- ===== src/Examples.antt =====
-- Runs of the modelled code on concrete tables: each theorem with hypotheses, applied where they hold.
mod Cents
mod Data
mod Totals
mod Db
mod Worker
mod Api
mod Round
mod Saving
mod Handlers
mod Logins
mod Ranking
mod Setup
mod Whole
mod Prices
mod View
