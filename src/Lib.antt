-- ===== src/Lib.antt =====
-- Verification of hypern's Rust core, modelled from the sources under src/ of the repository.
--
-- The program is a web framework: a Rust core that Python drives. These parts of it are
-- modelled.
-- * Realtime (src/realtime). `Heartbeat` is `HeartbeatMonitor` of heartbeat.rs, `Broadcast` is
--   `RealtimeBroadcast` of broadcast.rs, `Presence` is `PresenceTracker` of presence.rs, `Topic`
--   and `Channel` are `TopicMatcher` and `ChannelManager` of channel.rs. A channel manager enters
--   each subscriber in a topic matcher, which it shares with whoever asks for it. Both kinds of
--   channel stand on tokio's broadcast channel, which is the interface `Tokio` with its `Laws`; `Tokio.Sample` is one
--   instance.
-- * Middleware (src/middleware). `Context` and `Chain` are the request context and
--   `MiddlewareChain` of chain.rs, which runs middleware as records of functions. Of builtin.rs,
--   `Circuit`, `RateLimit`, `BasicAuth` and `Cors` are the middleware of those names, and
--   `Wrappers` is `PathMiddleware`, `MethodMiddleware` and the middleware that only write headers
--   and state. `BasicAuth.Base64` is `base64_decode`.
-- * Database (src/database). `Context` is `DatabaseContextInner` of request_context.rs, the
--   lazily acquired connection and its transaction; `Requests` is the global table of contexts
--   with `get_db` and the finalizing functions. Pools, connections and the server are the
--   interface `Postgres`.
-- * Routing (src/routing). `Cache` is `RouteCache` of cache.rs, `Route` is `Route` of route.rs,
--   `Router` is `Router` of router.rs. The router keeps a list of routes and one table of the
--   `matchit` crate for each method; the crate is the interface `Matchit`, whose two laws are about
--   paths without parameters.
-- * Core (src/core). `Tasks` is `TaskExecutor` of tasks.rs with its worker threads: each step of a
--   caller or a worker is a function, and `run` carries out any interleaving of them. `Reload` is
--   `HealthCheck` and `ReloadManager` of reload.rs; the handler of worker.rs counts its requests
--   there. `Worker` is `handle_request` of worker.rs, which composes the drain, the
--   middleware chain, the router, the handlers and the headers of the response; `Worker.Draining`
--   runs overlapping requests: the test of a request and the counting of it are two steps, and a
--   handler's future can be lost. `BlockingExecutor` is the method `map` of blocking_executor.rs with
--   the room of the channel that it sends to.
-- * Utilities (src/utils). `Pagination` is `paginate` of pagination.rs, `Pagination.Cursors` its
--   cursors.
-- * FastPath (src/fast_path). `JsonCache` is `JsonResponseCache` of json_cache.rs, `StaticFiles`
--   is `StaticFileHandler` of static_files.rs; `StaticFiles.Bounds` has threads that serve at once.
-- * Http (src/http). `Headers`, `Method` and `Request` are the types of headers.rs, method.rs and
--   request.rs, `Response` is `ResponseSlot` with the writers of response.rs, `Multipart` is the
--   parser of multipart.rs. `Sse` is `SSEEvent` of streaming.rs, `Sse.Generator` its
--   `collect_sse_from_generator`; `Sse.Reader` is the receiving side, written after the HTML
--   standard to check the format against. `Streaming` is `SSEStream` with `SSEBody`,
--   `Streaming.World` runs of the calls of a stream's clones with the polls of its body, and
--   `Streaming.Response` is `StreamingResponse`. tokio's bounded channel is the interface `Mpsc`.
-- * Memory (src/memory). `Pool` is `ObjectPool` of pool.rs.
--
-- Conventions. A struct is a record, an enum a data type, a method a function that returns the
-- new state with the method's result. A method is one atomic step; where a component has a
-- `Call` type, a history of calls is a list of them that `run` carries out. A `HashMap` or
-- `DashMap` is an association list (`Prelude.Map`). Clock readings are arguments. Counters are
-- natural numbers and do not wrap, except in `paginate`, `max_requests - 1` and the number of
-- requests in flight and `event_count` of a stream, where arithmetic wraps at 2 ^ 64, and in `base64_decode`,
-- whose buffer has
-- 32 bits. What Rust's standard library and other crates compute is a parameter where it matters
-- (`Floats`, `Tokio`, `Postgres`, `Matchit`, lower-casing and capitals, UTF-8, trimming, the
-- printing of numbers, the parsing of forms).
--
-- Fuel. The two `drain` loops (`Broadcast`, `Channel.Receiving`) take fuel; more fuel than there
-- are waiting messages, and one round for a lag, is enough. The loop of
-- `BlockingExecutor.map_chunked` takes the number of items as fuel, which is enough as each chunk
-- has one at least. `Multipart.split_from` takes the length of the body, each round taking a
-- boundary of it.
--
-- Not modelled: the Python bindings and `__repr__` texts; logging; the server, worker and process
-- set-up (src/core), other blocking calls and request-scoped values, saving and sending
-- files of a response, the arena and the other utilities; of builtin.rs the loggers, the timeout
-- and the cache; wrappers of other crates (client, grpc, redis, telemetry).
-- Two threads inside one method at once are modelled only where a method's steps are functions of
-- their own (`Tasks`, `wait_for_drain` in `Reload`, `Worker.Draining`, `StaticFiles.Bounds`).
pub mod Prelude
pub mod Core
pub mod Realtime
pub mod Memory
pub mod FastPath
pub mod Database
pub mod Routing
pub mod Utils
pub mod Middleware
pub mod Http
