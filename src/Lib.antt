-- ===== src/Lib.antt =====
-- PokeDrop: a Pokemon card collection with packs, an inventory and peer-to-peer trades.
--
-- The library models the core of the API, which is what moves cards and coins. The state is one
-- value, the tables that the services write (Schema.Database); a service method is a function on
-- it that returns a new database or an error, and an error is a transaction rolled back. SQL
-- statements are their effect on the rows they name: a guarded UPDATE is a test on the row, a
-- CHECK, a UNIQUE or a FOREIGN KEY is an error of the statement that would break it
-- (apps/api/prisma/schema.prisma and its migrations). One key is left out: the upsert of a
-- received card does not ask for the user and the card that inventory_items refers to. The
-- transactions that call it have asked for both by then: create_trade for the parties and the
-- cards of a trade, which the schema then keeps from being deleted (Restrict), and write for the
-- buyer and the cards of an opening. Identifiers are only compared, so they are numbers, and
-- amounts are naturals of any size.
--
-- Parts, and the files they model:
--   Base               errors and results (packages/shared/src/primitives/error.ts), tables as
--                      association lists, integers over the native numbers, a stable sort
--   Inventory          apps/api/src/inventory/quantity.ts and inventory.service.ts: lock, release,
--                      applyMoves. The table is a function of (userId, cardId)
--   Wallet             users, their balances and the ledger: the statements on them in
--                      apps/api/src/trades/trade-settlement.service.ts
--   Schema.Trade       apps/api/src/trades/trade-row.ts and packages/shared/src/entities/trade.ts
--   Schema.Database    the tables together, with the audit log and the notifications
--   Trades.Close       apps/api/src/trades/trade-close.service.ts, close
--   Trades.VoidAll     the same file, voidAllPendingOf
--   Trades.Settlement  apps/api/src/trades/trade-settlement.service.ts
--   Trades.Service     apps/api/src/trades/trades.service.ts, each method split into its reads, its
--                      transaction and its notifications
--   Trades.Expiry      apps/api/src/trades/trade-expiry.service.ts, one batch of its run
--   Packs.Ladder       packages/shared/src/packs/odds.ts, ladderOf
--   Packs.Generator    apps/api/src/packs/pack-generator.ts, over an interface Rng
--   Packs.Rng          apps/api/src/packs/pack-rng.ts, which fills that interface
--   Packs.Opening      apps/api/src/packs/pack-opening.service.ts
--   Admin.Service      apps/api/src/admin-users/admin-users.service.ts and
--                      apps/api/src/economy/welcome-grant.service.ts
--   Packs.Pool         apps/api/src/packs/pack-pool.ts
--   Composer           apps/web/components/trades/composer/composer-state.ts
--   Decks              packages/shared/src/decks/validate.ts, with the rules' names and the copy-limit
--                      key of packages/shared/src/entities/deck.ts
--   RandomDeck         apps/api/src/decks/random-deck: Draft, Catalog, Shuffle, Lines, Trainers, Generator
--                      and Choice are parts of random-deck.generator.ts; Service is
--                      random-deck.service.ts with the query of random-deck.pool.ts
--   Sync               apps/api/src/sync: Breaker is providers/provider-breaker.service.ts, Providers is
--                      provider-choice.ts and provider-selector.service.ts, Runs is sync-run.service.ts,
--                      Sweep and Process are price-sweep.processor.ts
--   System             the committed transactions of all of these as a step relation, and what holds
--                      between them
-- The other modules hold the theorems on the part they stand under, and Examples concrete runs.
--
-- Interaction: trades and packs call the inventory within their own transaction; a suspension closes
-- the trades of the account within its own. A handler reads a trade's row before its transaction, so
-- a step of System takes any row that agrees with the table in its terms. The validator checks what
-- the generator of random decks deals.
--
-- Fuel: the rejection loop of SeededRng runs on fuel and ends by an error without it, so the theorems
-- on its results hold for any fuel; fuel is enough that reaches the first accepted word. The recursive
-- query of the counter chain runs on as many rows as the table has. The rounds of an evolution line run
-- on the number of the catalog's Pokemon, and the rounds of a stage on the copies that it wants. The
-- loop of the price sweep runs on the rounds that its cards, its stalls and its one wrap allow.
--
-- Parameters: the digest of HMAC-SHA256 (Packs.Rng) is a function from the counter to a block of
-- bytes. Nothing is assumed of it. The generator of random decks takes a source of draws below any
-- maximum from 1 on, which is what the interface of pack-rng.ts offers, and its service the source that
-- each attempt's digest of SHA-256 seeds.
--
-- What a batch of the price sweep meets (the request budget, the provider and its breaker) is an
-- interface over a world that each request changes; nothing is assumed of it. The interface also says
-- which of the calls that `process` does not catch fail: those to the database and to the queue. The ids of the cards
-- are the same for a whole sweep and in ascending order.
--
-- Not modelled: authentication, mail, throttling, queues, caches, the Redis lock that spares a second
-- pack opening its work, the catalog's synchronisation, the writes of prices, stored decks, read
-- queries, and the rest of the web application. The order in which rows are locked, which is against
-- deadlocks, is kept as the order of the statements, but deadlocks are not modelled.
pub mod Base
pub mod Inventory
pub mod Wallet
pub mod Schema
pub mod Packs
pub mod Admin
pub mod Trades
pub mod Composer
pub mod Decks
pub mod RandomDeck
pub mod Sync
pub mod System
pub mod Examples
