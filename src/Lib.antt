-- ===== src/Lib.antt =====
-- Models of the server and worker of esi-isk, which track ISK donations and contracts in EVE Online.
--
-- The program has two processes over one database. The worker (isk/worker) pulls wallet journals and
-- contracts of the signed-up characters from ESI, the game's web service, and enters them into the
-- tables through isk/db. The server (isk/api, isk/web.go) lets a character log in, set preferences,
-- and shows what was received.
--
-- Base holds shared names, lists, Boolean tests, integers and Go's machine words. Base.Float stands
-- for float64: a type with the operations the program calls and no laws; a theorem that needs sums
-- of whole numbers up to 2 ^ 53 to be exact has that as a hypothesis. Cx models the options of
-- isk/cx/options.go, Cx.Flags how the command line sets them, and Cx.Keys the keys of
-- isk/cx/keys.go.
--
-- Db models isk/db. Db.Types and Db.PrefTypes are the structs. Db.Store is the database: a record of
-- tables and the calls that reach it. A Go function that talks to the database is an Action, a
-- function from the tables to a result (a value, an error or a panic) and the tables then. Each call
-- may fail: which calls are answered is a function in the state, of which nothing is assumed.
-- Db.Statements and its children are the SQL texts of isk/db/query.go as functions on tables.
-- Db.Names, Db.Users, Db.Donations, Db.Contracts and Db.Preferences model names.go, users.go,
-- donation.go, contract.go and preferences.go, and Db.Top models top.go; Db.Characters and
-- Db.Details model character.go, with what the latter finds in Db.Details.Content, Db.Totals the
-- functions addToTotals, removeFromTotals and their counterparts for contracts, and Db.Json what a
-- character is printed as. Below Db.Characters, Meeting is about the rows that a batch keeps in
-- memory, Creating and Saving about the table after they are written, Complete about both together,
-- and Contracts about the code that the source has twice; below Db.Names, Saving and Storing are
-- about SaveNames. Function names are those of the source in snake case: SaveCharacterDonations is
-- save_character_donations.
--
-- Worker models isk/worker: Worker.Esi is what ESI answers, Worker.Names names.go, Worker.Wallet
-- wallet.go, and Worker.Paging the fetching of pages that wallet.go and contracts.go share, with the
-- order of arrival of the parallel answers as a parameter and without the goroutines that still run
-- when an error has ended it; Worker.Contracts is contracts.go, with its market prices in
-- Worker.Prices, Worker.Maint maint.go and Worker.Process one round of esi.go. Worker.Wallet.Whole
-- puts the parts of a run of the wallet together.
--
-- Api models isk/api: Api.Auth the store of login states of auth.go, its goroutines being a sequence
-- of steps since every method holds the lock, and Api.Login the two handlers of auth.go, on the
-- store, the session and the tables; Api.Format the texts, Api.Rows the rows and Api.View the
-- handler of custom.go; Api.Prefs the page of preferences.go, Api.Pages the handlers of
-- character.go, top.go and ping.go, and Api.Answer utils.go, what a handler writes. Web models
-- getAllowed and InitialSetup of isk/web.go.
--
-- Examples runs the code on concrete tables. All loops are structural recursion on a list or on a
-- number of rounds, so no fuel is used. An index into a slice that only grows is the list that is
-- left.
--
-- Not modelled: the routes and middleware of the server, the execution of templates, connecting to
-- the database and preparing its statements, and the endless loop of the worker around its rounds,
-- which are I/O and the wiring of libraries. sort.Sort, ORDER BY, strconv.ParseInt, printing, JSON,
-- the calendar, URLs, hashes, the cache of responses, the sessions, the flag package, files, and the
-- services of ESI and of the login server are parameters. What follows the first return of
-- getOwnerFromJWT is never reached. When a page fails, the source closes its channels, and a
-- goroutine that has yet to send the answer of another page panics and ends the worker:
-- Worker.Paging gives the error that the function returns and leaves this panic out.
pub mod Base
pub mod Cx
pub mod Db
pub mod Worker
pub mod Api
pub mod Web
pub mod Examples
