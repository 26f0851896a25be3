-- ===== src/Lib.antt =====
-- A verification library for the load balancer in lib/, cmd/lb and cmd/mock-backend: which backend a request goes to,
-- when a backend is in rotation, and what cache-aware routing remembers.
--
-- The parts and their files:
--   Prelude        shared notation; tests on numbers, lists by native length, Go's 64-bit int
--   Table          Go's maps as association lists, and the 16-byte hashes that are their keys
--   Backend        lib/backend.go: health, epoch, connection counter, and the two hooks of the proxy
--   HealthChecker  lib/healthcheck.go: the timeout, the probe of one backend, checkAll, Start
--   Health         histories of health checks and proxied requests on one backend
--   Affinity       lib/cacheaware.go: the state of cache-aware routing
--   Pool           lib/balancer.go: NewPool, leastConnLocked, SelectBackend, GetStatus
--   Live           lib/balancer.go and lib/cacheaware.go: selection while other goroutines run
--   Chain          lib/cacheaware.go: canonicalMessage, splitUnits, chainUnits, affinityChain
--   Routing        lib/cacheaware.go: selectCacheAware and upsertLocked
--   Serve          lib/balancer.go and lib/cacheaware.go: ServeHTTP, serveCacheAware, writeSelectError
--   System         requests that arrive, are in flight and end, in any order
--   Exchange       lib/balancer.go, lib/cacheaware.go, lib/reqlog.go: a request from arrival to end
--   Cli            cmd/lb/main.go: the flags, their checks, the set-up of the pool, the start, /health
--   Process        cmd/lb/main.go: serving, signals and shutdown
--   Stats          lib/cacheaware.go: affinityStatsLine
--   Ticker         the loops on a context and a ticker in lib/healthcheck.go and lib/logger.go
--   Logger         lib/logger.go: connsSummary, logStatus, Start
--   Capture        lib/reqlog.go: capBuffer
--   RequestLog     lib/reqlog.go: the captures, the entries and their file
--   MockBackend    cmd/mock-backend/main.go: the prefix tracker and the handlers
--   Tests          concrete runs, and the theorems at concrete inputs
--
-- How they interact. A request body gives a chain of hashes (Chain). selectCacheAware (Routing) asks
-- leastConnLocked (Pool) for the least loaded backend, walks the chain for a pin in the table, and
-- reserves a slot on one of the two backends; SelectBackend (Pool) is the mode without a chain. The
-- hooks of the proxy and the health checker change the health of a backend and its epoch (Backend,
-- HealthChecker, Health), which selection reads. Each of these calls is one step of the model: a
-- function from the state before to the state after. Selection holds the pool's lock throughout, but a
-- release or a change of health takes only the backend's own lock, so that these fall between the reads
-- of one selection. Pool and Routing have each selection as a function, a call that nothing falls
-- into. Live has both as relations between moments: before each read of a backend, and before the slot
-- is taken, any number of requests end and any changes of health happen.
--
-- A request that is proxied holds its slot until it ends, when the deferred DecrementConns runs.
-- In System a step is the arrival of a request (as one call, or by Live), the end of one that is
-- in flight, a change of health, or a status line, so that a reachable state is what any sequence
-- of these calls can lead to. System.History collects the health events of one backend from such a
-- sequence, those that fall into a selection included. An arrival is bound to leave fewer than 2 ^ 63 requests in flight,
-- where an int counter stays exact. What the proxy comes to, and the outcome of reading a request
-- body, are arguments.
--
-- IsSetUp is the pool as cmd/lb sets it up, with any cap that its flags allow. Five times a cap above
-- a fifth of 2 ^ 63 wraps around, maybe to below 0. Then upsertLocked panics, after the slot of the
-- request is taken and before its release is deferred, so that the slot leaks; a panic of the model
-- leaves the pool as it was. So what is said of counters and panics in reachable states has the
-- hypothesis that the limit did not wrap around (`LimitFits` in System).
--
-- checkAll runs a goroutine for each backend; the model takes the order in which they finish as an
-- argument. The loops of Start take the list of what their select receives. The request log watches a
-- request as a list of events: what is read of its body, the backend that is chosen, and what is written
-- of the response. Exchange is a request from its arrival to its end: it runs the handler of Serve, a hook
-- of the proxy and the release of the slot, and gives the events to the request log, with its deferred
-- finish. In System these are the steps of one request, between which those of others fall.
--
-- Cli builds from the flags what Process runs. Process is the goroutine of the action and the one that
-- waits for a signal, with the requests as a number; its steps of http.Server are those that net/http
-- documents.
--
-- Conventions. A method is a function that returns the new state beside its result; a backend of the
-- pool is its index, since no operation reorders the pool. An int is an integer with every sum and
-- product wrapped to 64 bits (`to_int`), and a uint64 a number modulo 2 ^ 64. A status code is a
-- number, and a time is a number of nanoseconds on the monotonic clock, so that time.Sub does not
-- saturate. A runtime panic (an index out of range) is a result; what it leaves is not modelled.
--
-- Parameters. url.Parse, json.Unmarshal, json.Valid, the JSON encoder, strconv.Itoa, FNV-128a, float64
-- (in cmd/mock-backend), the clock and the random numbers are arguments. What is
-- assumed of them is a hypothesis where it is needed: rand.Intn(n) is below n, and a sum of FNV-128a
-- has 16 bytes.
--
-- Fuel. splitUnits is a loop on fuel; the length of the text is enough, since each round but the last
-- removes a block, and Chain.Blocks shows that more fuel changes nothing.
--
-- The one floating-point test, of a lead against a fifth of the cap, is the exact test 5 * lead > cap.
-- The two agree for caps below 2 ^ 50 (see `leads_too_far` in Routing).
--
-- Not modelled: the HTTP server and its mux, the proxy and its transport, the opening of files, the timers
-- and the sleeps; the parsing of the flags; the constant parts of the JSON answers of cmd/mock-backend,
-- and its log lines per request.
pub mod Prelude
pub mod Table
pub mod Backend
pub mod Ticker
pub mod HealthChecker
pub mod Affinity
pub mod Pool
pub mod Chain
pub mod Routing
pub mod Serve
pub mod Live
pub mod System
mod Tests
pub mod Health
pub mod Cli
pub mod Process
pub mod Capture
pub mod Stats
pub mod Logger
pub mod RequestLog
pub mod Exchange
pub mod MockBackend
