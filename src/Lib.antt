-- ===== src/Lib.antt =====
-- A model of the core of the Go service in backend/: the escrow marketplace in which handles are
-- sold, the registry of handles on which it stands, and the service's other parts with state:
-- sessions of users and of administrators, the authorization of apps, awards, friends, and the inbox.
--
-- A seller lists a handle, a buyer reserves it and pays a deposit to the escrow address with the
-- trade's reference. The escrow watcher sees the deposit and moves the trade on; the seller
-- releases the handle on the chain and the buyer claims it; the ownership watcher asks the registry
-- who holds the handle, walks the trade along, and has the settlement worker pay the seller or
-- refund the buyer through the signing node. Every change of a trade is one transaction of the
-- store, along a transition table.
--
-- A wallet logs in with a signature and gets a session, or signs a challenge for an app, whose token
-- then has some of the scopes that the app declares. The routes of the friends and of the inbox take
-- either: they ask the sessions, or the authorization store for a token with a scope, who acts.
--
-- Files, and the code that each models:
--   Address, Address/Layout, Address/Iban   backend/address.go, isValidNimiqAddress of
--                                           backend/inbox.go
--   Hex                                     encoding/hex and the trimming that readers of data do
--   Chain, Claims                           rpcTx of backend/nimiq_rpc.go, HandleClaim
--   Handles, Handles/Payloads               backend/handles.go
--   Handles/Registry and its children       backend/handles_registry.go: Rebuild, loadFromDB,
--                                           persist, Resolve, ResolveAddress, Available
--   Handles/Sync and its children            backend/handles_sync.go, GetAllTransactionsByAddress of
--                                           backend/nimiq_rpc.go, and the routes of
--                                           backend/handles_handlers.go that sweep
--   Market/State, Market/State/Graph        backend/marketplace.go
--   Market/Tables, Market/Store             backend/marketplace_store.go: rows, transactions,
--                                           queries; Store/Invariant and Store/Updates hold the
--                                           invariant, Store/History what becomes of a trade
--   Market/World                            the tables with scripts of what the database, the clock
--                                           and the signing node answer; `M` is an action on them
--   Market/Expiry                           CancelUnpaidReservation and ExpireStaleReservations as
--                                           actions
--   Market/Settlement and its children      backend/marketplace_settlement.go and
--                                           backend/marketplace_ledger.go
--   Market/Walk, Market/Watchers            backend/marketplace_ownership_watcher.go and
--                                           backend/marketplace_escrow_watcher.go
--   Market/Intents                          backend/marketplace_intents.go
--   Market/Handlers, Market/Submissions     backend/marketplace_handlers.go and
--                                           backend/marketplace_choreography.go
--   Market/Kept                             the interface between a property of the tables and the
--                                           actions that keep it
--   Market/Runs                             sequences of operations, each of which may fail anywhere
--   Market/Examples, Market/Handlers/Examples, Handles/Examples
--                                           runs at concrete inputs
--   Signatures                              backend/auth.go
--   Sessions, Sessions/Window,              backend/user_session.go and
--   Sessions/Handlers                       backend/user_session_handlers.go; Sessions/History and
--                                           Sessions/Replay are about runs of their calls
--   Sessions/Admin                          backend/admin.go
--   Auth, Auth/Scopes, Auth/Apps            backend/auth_store.go, backend/auth_protocol.go and
--                                           backend/app_registry.go
--   Auth/Handlers                           backend/auth_handlers.go, backend/auth_middleware.go and
--                                           backend/app_registry_handlers.go
--   Auth/Calls                              runs of the store's calls; Dead, Revoked, Declared,
--                                           Allowed, Actors, Spent and Exchange are about them
--   Awards, Awards/Granted                  backend/awards.go and backend/awards_handlers.go
--   Friends, Friends/Limiter,               backend/friends_store.go and
--   Friends/Handlers                        backend/friends_handlers.go; Pairs, Invariant, Requests
--                                           and Outcomes are about them
--   Inbox, Inbox/Handlers                   backend/inbox.go, backend/inbox_store.go and
--                                           backend/inbox_handlers.go; Limits and Delivery are about
--                                           the store
--   Awards/Examples, Friends/Examples, Sessions/Examples, Auth/Examples, Inbox/Examples
--                                           runs at concrete inputs
--   Base and its children                   numbers, texts, lists and results that the others share
--
-- State and operations: `Tables` has the rows of the listings, the trades, the used nonces and the
-- ledger. A method that runs one transaction is a function from tables to an error or a result with
-- new tables; an error rolls it back. `World` adds the scripts: a database call passes, fails, or
-- takes effect with its answer lost; the signing node answers a payment with a hash or an error,
-- and each payment that it was asked for is recorded. Go strings are lists of bytes, uint64 numbers
-- are natural numbers with their wrap-around written out where the code computes with them. The
-- tables of the friends, the inbox and the authorization store are lists of rows, and a call is a
-- function of them with the unique indexes and the checks of backend/migrations; their runs are lists
-- of calls, the last one first, each with its own readings of the clocks, which need not agree. A map
-- in memory, as that of the sessions' tokens, is the list of its entries.
--
-- Bounds: the loop of `walkChainTo` has fuel six, one round more than the settlement chain has
-- states, and Market/Walk/Ends shows that it is enough. Decimal texts of uint64 numbers have at
-- most twenty digits. The walk over a node's pages has as many rounds as the code gives it. All
-- other loops are over lists.
--
-- Not modelled: HTTP, JSON, SQL itself and the JSON-RPC transport, which are glue; SHA-256,
-- BLAKE2b, Ed25519 and random texts, which are arguments; `sort.Slice` keeps equal transactions in
-- the given order, which is one of the orders that it allows; Unicode beyond ASCII in trimming and
-- in changes of case; the interleaving of the statements of a request with those of others, except
-- where a call takes what it read as an argument: the count of a reservation, whose transaction
-- locks its own listing and no other row, and the checks of scopes before a challenge or a session
-- is inserted. Elsewhere a transaction, a statement or a call under a lock is one step, and a
-- handler runs alone. The backups, profiles, statistics, rates and caches, the cache of contract
-- owners, the reports for administrators, the import of old files and the web client are other
-- parts of the repository.
mod Base
pub mod Address
pub mod Auth
pub mod Awards
pub mod Chain
pub mod Claims
pub mod Friends
pub mod Handles
pub mod Hex
pub mod Inbox
pub mod Market
pub mod Sessions
pub mod Signatures
