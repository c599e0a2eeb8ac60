-- ===== src/Lib.antt =====
-- GopherCore: the logic of a Go library of service components, and what makes it correct.
--
-- The packages are independent of one another but for the uses of `jsonutil`. Each module models
-- one package, by the names of its Go functions in snake case:
--
--   Common      shared names, Boolean tests, lists, integers, association lists, texts
--               as byte lists
--   Runtime     error values, contexts, outcomes of calls, functional options
--   Breaker     circuitbreaker/circuitbreaker.go: the state machine with lazy evaluation,
--               `ExecuteContext` cut at its two critical sections; Breaker/System lets any number of
--               calls interleave between those, and Breaker/Spec is the machine of one number that a
--               single client sees
--   Cache       cachekit/memory.go: the map and the heap of byte slices that callers share with it,
--               the lookups and evictions cut at their critical sections; Cache/Threads lets any number of
--               calls interleave between those; Cache/Lifecycle has the cleanup loop
--               and `Close`, and Cache/Lifecycle/Runs their interleavings; Cache/Redis is cachekit/redis.go,
--               and Cache/Contract the interface of cachekit/cache.go, which both caches implement
--   Retry       retry/retry.go: options (Retry/Settings), delays (Retry/Delay) and the two loops
--   Guard       guard/guard.go: `SanitizeString`, `Validate` and the validation errors
--   Result      result/result.go: `Result` and its combinators
--   Http        httpkit/router.go, httpkit/middleware.go, httpkit/response.go: options
--               (Http/Settings), middlewares (Http/Layers), the router's stack (Http/Router), the
--               goroutines of `GracefulShutdown` (Http/Shutdown) and JSON responses (Http/Response)
--   Async       async/async.go: `Go`, `GoErr` and `Group` (Async/Group), and `Map` and `Fan`, whose launching
--               loops, workers and contexts are the steps of relations (Async/Runs, Async/Fan), and
--               async/queue.go (Async/Queue)
--   Db          dbkit/db.go (Db/Connection) and dbkit/migration.go (Db/Migration)
--   Config      config/config.go: `setField` (Config), `populate` and `Load` (Config/Fields), and the
--               parsers of Go's `strconv` that they use (Config/Numerals)
--   Grpc        grpckit/interceptors.go (Grpc/Interceptors), grpckit/server.go (Grpc/Server) and
--               grpckit/client.go (Grpc/Client)
--   Otel        otelkit/otelkit.go: `InitSDK` by its effects on the global providers
--   Log         logkit/logkit.go: the options of a logger
--
-- Time is a native number of nanoseconds on a monotonic clock. What other goroutines do while a lock is
-- free is a function `others` on the state, over which the theorems quantify, or a further step of
-- the step relation. Functions passed in return or panic (`Outcome`), but for the two callbacks
-- named below, and a panic goes through the deferred functions as in the code. A handler of httpkit is a function from the request and a
-- shared state to the calls it makes on the response writer.
--
-- The retry loops run on the attempts that are left: as many as `MaxAttempts`, which is the bound of the
-- code's own loop. The search for the spacing of a float64 (Retry/Delay) has 11 spacings to try, enough for
-- the 64 digits of an int64. No other loop runs on fuel. Products of float64 in `calculateDelay`
-- are rounded to 53 bits, ties to even, and the conversion back out of range is a parameter, as Go leaves
-- it to the machine. Counters of the breaker are unbounded.
--
-- `populate` walks a tree of fields with the values that they hold; a nil pointer to a struct comes with
-- the zero value that `populate` allocates, which is finite, so that a struct type with a pointer to
-- itself has no such tree. `time.ParseDuration` and `strconv.ParseFloat` are parameters.
--
-- Not modelled: what is logged outside the interceptors, the text of wrapped errors, the package
-- jsonutil, whose functions are those of a JSON library, and the package simulation, which holds tests only.
-- Two callbacks are taken to return: `RetryIf` is a total test, though a nil one panics as in the code, and
-- `OnStateChange` is only recorded, so that neither its panics under the breaker's mutex nor its calls back
-- into the breaker are modelled.
pub mod Common
pub mod Runtime
pub mod Breaker
pub mod Cache
pub mod Retry
pub mod Guard
pub mod Result
pub mod Http
pub mod Async
pub mod Db
pub mod Config
pub mod Grpc
pub mod Otel
pub mod Log
