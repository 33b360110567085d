-- ===== src/Lib.antt =====
-- mcp-bridge: two Go services that carry MCP requests, a router beside the client and a gateway in
-- front of the servers. This library models the parts that hold their own logic and shows what makes
-- them correct.
--
-- The parts, and the files that model them (paths from the repository's root):
--   Circuit        services/gateway/pkg/circuit/breaker.go: one function for each critical section of
--                  the mutex (`Call` has two: `is_open` and `record_outcome`), the goroutine of
--                  `autoRecovery` as one more. Circuit/Interleaving has any number of callers between
--                  these sections, Circuit/Traces one client calling in turn with the goroutine's
--                  ticks between its calls.
--   Wire           services/gateway/pkg/wire/protocol.go: `Frame.Encode` over any writer, `Decode`
--                  over the bytes still to come, the negotiation of versions.
--   Balancer       services/gateway/pkg/loadbalancer/loadbalancer.go and hybrid.go, over the
--                  endpoints of services/gateway/internal/discovery/types.go. RoundRobin,
--                  LeastConnections, Weighted and Hybrid are its four balancers, Counts the map of
--                  connection counts that two of them keep.
--   RateLimit      services/gateway/internal/ratelimit/ratelimit.go and redis_circuit.go: Local is
--                  the in-memory limiter, Redis the one over a Redis client, FaultTolerant puts the
--                  breaker of Circuit in front of Redis with Local to fall back on, other goroutines
--                  doing anything to the breaker meanwhile.
--   RouterBreaker  services/router/internal/gateway/circuit_breaker.go: the critical sections, and
--                  `executeWithCircuitBreaker` as two of them in turn.
--   RouterFrame    services/router/internal/gateway/binary_frame.go, with constants.go: the router's
--                  side of the binary protocol, over the bytes and writers of Wire.
--   RequestQueue   services/router/internal/router/request_queue.go, with the response channels.
--   SlidingWindow  `SlidingWindowLimiter` of services/router/internal/ratelimit/ratelimit.go; Waiting is
--                  its `Wait`.
--   Session        services/gateway/internal/session/memory_manager.go: the in-memory session store,
--                  whose clean-up goroutine is one operation among the others.
--   NamespaceRouter
--                  services/router/internal/gateway/namespace_router.go, over any regular expressions:
--                  Rules has the default rules, Sorting their order, Selection what is answered.
--   Pool           services/router/internal/pool/pool.go and connection_acquirer.go: Pool and
--                  Pool/Acquirer have the sections between two waits, Pool/Clients the callers of
--                  `Acquire` and `Release` with their channels and the steps, each section whole,
--                  Pool/Ledger the account of the connections, Pool/Overlapping the callers whose
--                  sections of one `Acquire` overlap.
--   MessageRouter  services/router/internal/router/message_router.go: Correlation has the requests to
--                  the gateway, their goroutines and channels and the routing of responses, Direct the
--                  choice of a target, the direct attempts and the fallback.
--   GatewayPool    services/router/internal/gateway/pool.go and endpoint_selector.go: the selection of a
--                  gateway endpoint and the health of one; Loops has the loops of the strategies.
--   PoolClient     services/router/internal/gateway/pool_client.go: connecting with its retries over the
--                  selection of GatewayPool, switching by the tags of NamespaceRouter, requests and
--                  the ends of connections; Operations has what works on a current endpoint.
--   ConnectionManager
--                  services/router/internal/router/connection_manager.go: the states and their
--                  notifications, and the loop of attempts to connect with its backoff.
--   Prelude        what these share: Boolean tests, lists, maps, results, texts and signed integers.
-- A Go method is the function of the same name, which takes the state and returns the new one with the
-- result; a lock's critical section is one step. A file Examples beside each part holds its tests.
--
-- Numbers and time: `int` counters are natural numbers without a bound, and a limit, weight or
-- threshold of 0 or below is 0; where the source tells these apart the file says so. The atomic
-- uint64 counters of the balancers wrap at 2^64, and the theorems that need them not to wrap say so.
-- Connection counts below the largest int64 are assumed where they are compared with it. Times are
-- nanoseconds and come in as arguments; where a theorem needs a clock that does not go back it says so.
-- Only `Wait` of the sliding window runs on fuel, with a theorem on how much is enough; the other loops
-- are over lists or over a number of rounds that the source fixes. The text functions of Prelude/Text run on the number of bytes or, for printing a number,
-- on the number itself, which their loops do not exceed. Texts are ASCII where letters are lowered.
--
-- Parameters: the clients of the gateway's endpoints are a record of what they answer over a world of
-- their own; the Redis client is a record of what a pipeline of INCR and EXPIRE does; writers are
-- any state with a `Write` that may fail; the outcome of a call through a breaker comes in as a
-- value; regular expressions are a record of compiling and matching, `rand.Intn` is any function
-- below its bound. What a connection factory, a connection's health and a direct client answer
-- comes in with each operation; that a factory's identifiers are new is a condition of the theorem
-- that needs it, as is that no identifier in flight is submitted again.
--
-- Not modelled: backends, frontends, discovery, authentication, key storage, the direct clients and
-- the configuration, which are I/O and library calls; the health prediction and the token bucket,
-- which compute in floating point; sessions in Redis and input validation; of the message router
-- its stopping, the queueing of requests before the connection, and the loops that read stdin and
-- the connection; the wrappers of clients as pooled connections; of the connection pool a `Release`
-- that overlaps a `Close`. Logging and metrics are left out everywhere.
pub mod Prelude
pub mod Circuit
pub mod Wire
pub mod Balancer
pub mod RateLimit
pub mod RouterBreaker
pub mod RouterFrame
pub mod RequestQueue
pub mod SlidingWindow
pub mod Session
pub mod NamespaceRouter
pub mod Pool
pub mod MessageRouter
pub mod GatewayPool
pub mod ConnectionManager
pub mod PoolClient
