-- ===== src/Lib.antt =====
-- keypool-service hands out API keys of channels and takes reports of the calls made with them. It reads
-- the tables of new-api (channels, abilities, options) and keeps cursors, usage counters, locks, leases
-- and idempotency keys in Redis.
--
-- The parts and their files:
--   Base, Platform, Errors: what the program uses of Go (ints, maps, sorting, text, strconv), the
--     functions from outside as one record of parameters, and errors as chains of sentinels.
--   Store: internal/store. Types has the rows, GetKeys, Epoch and EnabledKeyIndexes; CodeRange and
--     Settings parse the options as types.go and poller.go do; Upsert is UpsertOption; Poller reads the
--     options table and refreshes the snapshot; Loop is the polling goroutine with Start and Stop as
--     steps; Open is Open, and GetChannelsByIDs; Distinct and Walk are about maps and the order in which
--     they are walked; Meta is Channel.Meta; Apply is ApplyKeyStatus as a function from the two tables to
--     the new ones, `none` for a rollback. Keys, Effects and Abilities prove what they do.
--   Classifier: internal/classifier, and Decision, when it disables.
--   Selector: internal/selector. Batch and Tiers are batch.go; Candidates, Request and Select are
--     selector.go, where Select passes the state of Redis and the counters along, and each early return
--     is a value.
--     Partition, Bands, Ahead, Order, Pick, Liveness and Served prove what they do.
--   Redis: internal/redisx. Client has the keys with their expiry and the client's operations, each of
--     which may fail before or after the server ran it (`Link`); Script is
--     select_key.lua; Names has the names of the keys. Picks, Usage and Locks are about the client and the
--     script; Keys puts the client under the selector.
--   Disabled: the store's write followed by a selection.
--   State: internal/state. Manager is Report and Manual is SetKeyStatus, over any store and Redis
--     (`World`): a call may answer with any value or error and leave any state. Deferred calls run where
--     the function returns. Backed is the world of the modelled store and client, where
--     each call may fail; IdemKeys follows the idempotency key through it.
--   Reported: a report followed by a selection.
--   Api: internal/api. Router has the dependencies of the router as one record over any state, the
--     requests and the responses; Requests has the checks of the handlers and the mapping of errors; Keys
--     and Configs are the handlers of handlers.go, Metrics the text of /metrics, Serve the routes and
--     authMW; Rotation is rotation.go. Wired is NewRouter over the modelled selector, manager, store and
--     poller, at a moment that says which parts answer. Agreement and Accepted relate the checks to the
--     selector; Documented, Access, Listed, Passed, Effects, Known, Failures, Service, Switching,
--     Rows, Snapshots and Saved are about what a request answers and leaves behind.
--   Config: internal/config/config.go, and Loaded, what Load gives.
--   Startup: cmd/keypool/main.go. Boot is main up to ListenAndServe, over what Redis, the drivers
--     and the options table answer; itoa is main's own.
--   Tests: the theorems at concrete inputs.
--
-- Numbers: Go's int stands as an unbounded integer, except where 64 bits matter (the seed of the shuffle,
-- the sum of the weights, the end of a band, the interval of the poller), where the wrap-around is
-- written out. A float64 is its bit pattern, and its arithmetic a parameter. Times are natural numbers.
--
-- Fuel: the cutting of batches takes the number of indexes as fuel, and each round takes an index at
-- least; Itoa takes the number itself, and each round divides it by ten; itoa of main.go takes the twenty
-- bytes of its buffer, which hold every int. The other loops are by structure.
--
-- Failures: a call on Redis that fails has run on the server or not; a selection script that stops in the
-- middle leaves its decay. A read of the database may fail at each call. A transaction that fails is rolled
-- back, which is the database's promise.
--
-- Interleavings: a Redis command or script and a database transaction is one step. Report is modelled
-- against a world that may change in any way at each call. Requests that are served by Serve run one after
-- the other; the poller's steps come between them.
--
-- Not modelled: the connections and the SQL (gorm and its drivers, go-redis), HTTP, its server and ServeMux's
-- choice of a handler, JSON (a parameter), the recovery from a panic, request ids, logging and the text of
-- messages, the timestamp of an event, the signals and the shutdown of the main program.
pub mod Base
pub mod Platform
pub mod Errors
pub mod Store
pub mod Classifier
pub mod Selector
pub mod Redis
pub mod Disabled
pub mod State
pub mod Reported
pub mod Api
pub mod Config
pub mod Startup
mod Tests
