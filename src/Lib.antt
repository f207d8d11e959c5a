-- ===== src/Lib.antt =====
-- kURL, a link shortener of three services. The gateway (gateway/) answers HTTP: it creates, deletes
-- and visits short links and shows statistics. The core service (core/) owns the table of links and
-- fills a cache of targets in Redis, which the gateway reads first. Each visit puts a click event on
-- a Redis stream; the analytics service (analytics/) counts the events in Redis and merges the counts
-- into Postgres. The services share the crate common/ and talk by the messages of proto/.
--
-- Files:
--   Prelude, Prelude/*        results, effects as explicit state passing, keyed maps, time, sums of
--                             tables, the parser of i64
--   Common/Database           the tables of migrations/ and a pool whose statements may fail
--   Common/DbErrors           common/src/db_utils.rs
--   Common/RedisKeys, Events  common/src/redis_keys.rs, common/src/events.rs
--   Common/Retry, Connections common/src/retry/, common/src/connections.rs
--   Common/Config             common/src/config/types.rs: the types with their defaults; Fields has how they
--                             are read, Loader loader.rs, Validation validation.rs
--   Common/Rpc                the messages of proto/, and gRPC statuses
--   Core/Repository           core/src/db.rs: the trait LinkRepository as a record with laws; Queries
--                             has the statements, Pg shows that they satisfy the laws
--   Core/Service              core/src/grpc.rs: create_link, get_link and delete_link over any
--                             repository; Codes, CacheTtl, Links, Create and RoundTrips prove them
--   Core/Cache                core/src/cache.rs: the worker of the cache queue, one turn of its
--                             select loop at a time
--   Core/Startup, Main        core/src/init.rs and core/src/main.rs: the start, and the process from then
--                             on, with its requests, its worker and its end
--   Core/Coherence            handlers and worker in any order, each request in one piece: the cache and
--                             the table of links
--   Analytics/Snapshot        analytics/src/snapshot.rs
--   Analytics/Merge           analytics/src/db/pg_snapshot_repo.rs: merge_snapshot
--   Analytics/Queries, Updates
--                             analytics/src/db/db.rs: the queries, and the statements over arrays;
--                             Analytics/Repository has its trait
--   Analytics/Redis           what the analytics service uses of Redis: hashes, texts, the stream with
--                             its consumer group, and a pool whose commands may fail
--   Analytics/RedisStats      analytics/src/redis_stats.rs: the scripts, each in one piece
--   Analytics/Persistence     analytics/src/redis_persistence.rs: Rehydrate, Capture and Flush have the
--                             operations, the other children prove them
--   Analytics/EventConsumer   analytics/src/event_consumer.rs: the functions that read the stream; Loop
--                             has the event loop and the writer, Reading the steps of the reading
--                             among other services and failures
--   Analytics/Grpc            analytics/src/grpc.rs
--   Analytics/Startup, Gateway/Startup
--                             init.rs and main.rs of analytics/src/ and gateway/src/, up to the server
--   Gateway/State             gateway/src/state.rs, gateway/src/cache.rs
--   Gateway/CoreClient        gateway/src/grpc/core_client.rs: the calls with a deadline
--   Gateway/InFlight          the requests in flight there, which share calls under the permits of a
--                             semaphore, one step at a time, to a core service that changes in time
--   Gateway/Create, Delete, Redirect, Stats
--                             gateway/src/api/, with gateway/src/grpc/mod.rs
--   Gateway/Journey           the gateway's handlers, with visits that share calls, over those of the core
--                             service
--
-- A handler is a function of its request and of the state that it reaches, which it returns changed;
-- what it has written before it fails stays written. Each reading of the clock is an argument. The
-- outages of a pool are a list that tells for each statement whether it fails before it reaches the
-- server, or is carried out and its answer lost; that holds for a COMMIT too. A timestamptz keeps whole
-- microseconds. Redis answers or fails likewise. In the analytics service an answer function gives for each kind of command
-- and each moment whether the command is carried out, refused, or carried out with its answer lost. A
-- panic is a value of its own (Prelude/Faults). Code of other crates is a parameter: the conversion of
-- timestamps, the parser of URLs and dates, the random characters, what serde reads from a value of the
-- configuration and how the crate config merges the file and the environment, and the attempts of the
-- drivers to connect. Which names serde refuses and which defaults it takes is what the attributes of
-- the types ask for.
--
-- Bounds: counts of clicks are natural numbers, since the tables and the parser have no negative
-- ones, and do not overflow 64 bits. Instants are nanoseconds and may be negative. Loops are
-- structural: the ten tries for a short code, the attempts of a retry, and the worker's loop over
-- the events that it meets. The drain of pending entries runs on a number of rounds; where Redis serves
-- its commands, more rounds than entries are pending are enough, since each round makes them fewer.
-- Hash maps are lists of entries, visited in the order of the list.
--
-- Left out: logging, tracing and most metrics, HTTP routing and JSON, the static page, the migrator, and
-- how the gateway and the analytics service end. The lock of the analytics writer is the database's: its
-- loop meets what the lock answers. A request that waits on a channel takes no step of its own until the
-- channel is answered or closed; in which order tasks get permits is left open.
--
pub mod Prelude
pub mod Common
pub mod Core
pub mod Analytics
pub mod Gateway
