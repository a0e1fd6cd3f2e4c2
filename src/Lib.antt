-- ===== src/Lib.antt =====
-- The stock, price, order and event core of the posnet hub: a model of its Python code and the
-- theorems that hold of it.
--
-- The program is a multi-tenant hub between shops' tills and online channels. Domain functions
-- change stock and prices in one Postgres transaction and leave an event in the outbox; the relay
-- moves the events to a queue; the consumer hands each to a handler with retries and dead letters;
-- the handlers call channel adapters behind a rate limit and a circuit breaker; orders of the
-- channels come back by the order ingest, which reserves stock.
--
-- - Prelude: names of the libraries, Boolean tests, integers (Prelude/Int) and fallible actions on
--   a state (Prelude/Exec): an `async def` on a session is `S → Result E A × S`, and
--   `begin_nested()` or `begin()` is `savepoint`, which restores the state when its body raises.
-- - CanonicalModel: libs/canonical_model (products, levels, prices, orders).
-- - Tables: the tables of services/core/app/infrastructure/db/models.py as lists of rows, the row
--   level security of the migrations as the test `visible`, the test `too_long` for the length of a
--   VARCHAR column, the errors of libs/common/errors.py and those of the database.
-- - Inventory: services/core/app/domain/inventory.py. `effect` is `_effect`; `apply_movement` is
--   composed of `lock_level` (SELECT FOR UPDATE, or the INSERT of a level) and `move_level` (the
--   guards and writes); CHECK constraints are `passes_checks`. Inventory/Levels and
--   Inventory/Stock have the lemmas on rows and on `_effect`, Inventory/Journal the invariant and
--   Inventory/Ledger the abstract view of the stock that the operations refine.
-- - OrderIngest: services/core/app/sync/order_ingest.py, all of it, from `reserve_planned` (the
--   loop over the planned rows) to `ingest_channel_order`; its child modules prove the plan, the
--   amounts, one line, the order and a delivery, in this order.
-- - Pricing: services/core/app/domain/pricing.py (`set_override`, `resolve_price`); the query's
--   WHERE is `applies` and its ORDER BY is `precedes`.
-- - Catalog: services/core/app/domain/catalog.py, all of it, with `enqueue` of
--   libs/eventbus/outbox.py. Catalog/Codes is about SKUs and barcodes, Catalog/Publish about the
--   publication gate, Catalog/Pages about pagination. `matches` is the full-text search of Postgres.
-- - Shifts: services/core/app/domain/shift.py; the partial unique index on open shifts is `clash`.
-- - Flags: libs/feature_flags/registry.py and services/core/app/domain/feature_flags.py;
--   Flags/Overrides has what a tenant sees after a flag was set.
-- - Sync: services/core/app/sync. Sync/Canonical is canonical.py, the snapshot of a variant for the
--   channels; Sync/Guard is guard.py; Sync/Dispatcher is the handler of stock movements of
--   dispatcher.py (`on_movement_applied`) and its `_guard` (`guarded`), Sync/Dispatcher/Handlers the
--   other two handlers and the dispatch of an event. Sync/PosIngest is
--   pos_ingest.py, and Sync/Reconcile is reconcile.py, in which a channel's adapter is the record
--   `ChannelAdapter` of functions on a world of its own; what a channel is relied on for is
--   `IsFaithful` of Sync/Reconcile/Faithful.
-- - EventBus: libs/eventbus. EventBus/Consumer is consumer.py (`run_once` by its halves `process`,
--   `handle_and_archive` and `on_failure`), EventBus/Relay is relay.py, EventBus/Idempotency is
--   services/core/app/idempotency.py. pgmq is not code of the repository: it is the record `Pgmq`
--   of functions, whose documented behaviour is `IsLawful` in EventBus/Consumer/Delivery. `Raised`
--   tells the exceptions that `run_once` catches from a cancellation, which it does not.
-- - Adapter: libs/adapter. Adapter/Errors is errors.py, Adapter/Breaker is circuit_breaker.py,
--   Adapter/Bucket is rate_limit.py, Adapter/Signature is hmac_verify.py, with HMAC-SHA256 and
--   Python's `int()` as parameters and the rest of the check written out on code points.
-- - Identity: services/core/app/domain/identity.py (users, roles, permissions and assignments) and,
--   in Identity/Onboarding, onboarding.py, with the unique keys, the column lengths and the row level
--   security of their tables written out.
-- - Webhooks: services/core/app/api/v1/webhooks.py. `receive_webhook` is composed of the
--   transaction `delivery`, which is the guards of `admit_delivery` and the order ingest, and of
--   `after_commit`, the write-back to the POS and the acknowledgement. Its state is the database
--   and the world behind the adapter and the POS; Webhooks/Delivery is about what a delivery
--   leaves, Webhooks/Answers about whom it calls and what it answers.
-- - Channels: services/core/app/adapters and the servers of mocks/ that they talk to. Channels/Http
--   is `_send`, `_raise_for_status` and `_request`, over a client (httpx) that is a parameter;
--   Channels/Json is how a field of a JSON value is read. In Channels/Marketplace and
--   Channels/Bazar the parent is the server's store, Server its schemas and handlers, Client the
--   adapter, and Reading what the adapter reads in a response or a webhook's body. What is relied on
--   of the network is `IsServed` of Channels/Http/Served: a response that is no error, or a 404, is
--   the server's; calls may fail, be lost, or lose their answer.
-- - Tests: concrete states, tests that run on them, and theorems at concrete inputs.
--
-- How the code is read. Ids are numbers, since UUIDs are only compared and ordered. Times are
-- numbers of ticks, given to each operation that reads a clock. Tokens of the bucket, floats in
-- the source, are counted in parts so that the arithmetic is exact. Money and quantities are
-- unbounded integers, as in Python. A transaction runs alone on its state: what other sessions
-- do is in the rows it may not see, in the rows that another relay has locked, and, for the
-- breaker, in the orders in which starts and ends of calls alternate. A foreign key is written
-- out where the code answers its violation or raises it as such (channel orders, variants,
-- identity); elsewhere the row referred to is taken to be there. The lengths of VARCHAR columns
-- are written out for texts that come from outside and are written by modelled operations of the
-- catalogue, of the order ingest and of identity, and no others. No text has the character
-- U+0000, which Postgres does not store. No recursion has fuel: the loops run over lists
-- (planned rows, order lines, clock readings, times of runs), and the endless loops of the
-- workers are sequences of runs of any length.
--
-- Not modelled: the HTTP layer but for the webhook (services/core/app/api, middleware, main.py),
-- authentication and the checks of roles, database sessions and migrations as such, money, the
-- creation and listing of warehouses, the construction of adapters from settings, the mock POS and
-- the test hooks of the mock channels, telemetry, Vault, i18n, configuration, the scripts, the
-- admin web application and the infrastructure files. A path of the channels' servers is built of
-- a SKU or an order id as one segment; what a SKU with a slash does to it is not modelled.
pub mod Prelude
pub mod CanonicalModel
pub mod Tables
pub mod Inventory
pub mod OrderIngest
pub mod Pricing
pub mod Catalog
pub mod Shifts
pub mod Flags
pub mod EventBus
pub mod Adapter
pub mod Sync
pub mod Identity
pub mod Webhooks
pub mod Channels
pub mod Tests
