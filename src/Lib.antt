-- ===== src/Lib.antt =====
-- The stock watchlist service: a model of its backend, with the theorems that make it correct.
--
-- One process, the price service, reads prices from a source on every tick, finds those that
-- changed, and writes three stores: all prices to the Redis cache, the changed ones to the table
-- `latest_prices` of Postgres, and a publication for each changed one to Centrifugo. The API reads
-- snapshots from the cache, with the table behind it. Both writes of a price are guarded by
-- `effective_at`, the time at which the price was first seen at its current value.
--
-- Which file models which part (paths are the repository's, under src/watchlist unless named whole):
--   Time.antt, Time/*: shared/timeutil.py. An instant is the number of microseconds since 1970; the
--     calendar that Python's datetime uses is counted out day by day, `isoformat` and `str.replace`
--     are written out.
--   Settings.antt: shared/settings.py, the fields that the modelled code reads.
--   Cache.antt, Cache/Guard.antt: shared/cache.py. Redis is a dictionary of values with an expiry,
--     read at a clock; `cas` is the Lua script. A JSON text stands for what it decodes to.
--   Prices.antt, Prices/Upsert.antt: modules/prices/prices_controller.py, the statements on
--     `latest_prices`, as functions on a table keyed by security.
--   Prices/Snapshot.antt, Prices/Reconcile.antt: modules/prices/prices_handler.py, SnapshotReader and
--     reconcile_source.
--   Sources.antt, Sources/Laws.antt: price_service/sources, the interface `PriceSource` and the
--     fetches of SimulatedSource and VendorSource.
--   Service.antt, Service/Writers.antt, Service/Tick.antt: price_service/service.py. `World` is the
--     service with the stores; `Env` is what one tick meets: clocks, the connection to Redis (which
--     may be cut after any number of commands), the fate of the upsert (done, refused, or done with
--     the answer lost) and the broker's reply. Service/Tick/Runs.antt is the
--     rule for what every tick keeps; with it Service/Tick/InStep* follows what the service remembers
--     and what is stored over whole runs, and Service/Tick/Coherent* what is cached.
--   Service/Startup.antt, Service/Startup/*: `start` of service.py with its steps. `StartEnv` is what one
--     start meets: the vendor's catalog, the rows of the seed files, the fates of the statements that
--     rewrite `latest_prices`, and the connection to Redis of each call.
--   Vendor.antt, Vendor/Adapter.antt: vendor_mock/main.py, the stand-in for the vendor, and the adapter
--     of price_service/sources/vendor.py over it.
--   Securities.antt, Securities/*: modules/securities, the catalog and the search. LIKE patterns are
--     read as Postgres reads them; its collation and case folding are parameters.
--   Watchlists.antt, Watchlists/*: modules/watchlist, membership and the view of GET /watchlist. A
--     list refers to its user: to insert one for a user who is gone is an exception of Postgres.
--   Accounts.antt, Accounts/*: modules/auth and the password check and access token of
--     shared/security.py. The tables are dictionaries on their ids; a request reads the clock once.
--     In Accounts/Sessions/Race.antt two exchanges of refresh tokens take turns statement by
--     statement; elsewhere a request runs alone.
--   Tools.antt, Tools/*: tools/reset_prices.py, tools/create_users.py and tools/seed/capture_prices.py.
--   Api.antt, Api/*: api/deps.py, api/routers, the health report of api/main.py, and
--     modules/realtime. A route is what it makes of its handler's result.
--   Seed.antt, Seed/*: tools/seed/seed_users.py, the padding of the catalog, the ranking of its
--     securities by popularity, the batches of load users, the transaction of one batch (Seed/Batch*)
--     and the watchlist rows.
--   Base.antt, Base/*: Python's dict, texts, `==`, exceptions as values, lists, sorting.
--   Tests.antt, Tests/*: runs, and the theorems at concrete inputs.
--
-- Parameters, since they are no code of the repository: floats and their generator (`Numbers`; the
-- test `==` on prices is `feq`, which a NaN fails), the vendor's HTTP endpoint, what Centrifugo
-- answers to each command of a batch, bcrypt, SHA-256, the JWT library (`Jwt`, with `IsJwt` for what
-- its documentation promises), the random refresh tokens, and the rows of the CSV files. The
-- draws and the shuffle of `random.Random` are parameters too. Loops go over lists, but for the
-- batches of Seed.antt, whose fuel, the number of users still missing, is shown to be enough.
--
-- Simplifications. The three writers of a tick run whole, one after the other; that their order does
-- not matter is a theorem. A cached text is a JSON object or does not decode at all. The cache's time
-- to live is positive, since Redis refuses another. Log lines and the Prometheus counters, which
-- repeat the service's own, are left out. During a start Postgres answers, but for the statements that
-- have a fate in `StartEnv`.
--
-- Not modelled: the process entry, the connection pool, logging and metrics, which only call
-- libraries; the other scripts under tools, which are commands to the stores one after the other; the
-- client and the load generator, which are written in other languages.
pub mod Base
pub mod Time
pub mod Settings
pub mod Cache
pub mod Securities
pub mod Seed
pub mod Tools
pub mod Prices
pub mod Sources
pub mod Vendor
pub mod Service
pub mod Accounts
pub mod Watchlists
pub mod Api
mod Tests
