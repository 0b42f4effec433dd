-- ===== src/Lib.antt =====
-- mcpshield is a gateway between MCP clients and upstream MCP servers. A request to
-- internal/gateway is checked, authenticated and tied to a session; a tool call is then put to the
-- policy engine of internal/policy, forwarded by the upstream manager of internal/upstream, and
-- recorded by the audit logger of internal/audit before it is answered. cmd/mcpshield reads the
-- configuration (pkg/config), builds the authenticator of internal/auth, the clients of
-- internal/transport and the parts above, and starts the server.
--
-- Files:
--   Prelude       the names that all files share: numbers, lists, association lists, results
--   Mcp           internal/mcp/types.go: JSON values, messages, error codes
--   Metrics       internal/observability/metrics.go: the vectors and the updates of the counters;
--                 Calls (the label values of each method)
--   Config        pkg/config/config.go: the raw and the runtime configuration; Build (Load's result
--                 through BuildRuntime)
--   Auth          internal/auth/auth.go and buildAuth of cmd/mcpshield/main.go
--   Policy        internal/policy: Validator (validator.go), File and Loader (loader.go: its types;
--                 compile, evaluate), RateLimit (ratelimit.go: Allow), Engine (engine.go:
--                 Evaluate, Swap)
--   Gateway       internal/gateway/gateway.go: configuration and responses; Sessions (bindSession,
--                 resolveSession and the evictions), Events and Handlers (handleInitialize,
--                 handleToolsList, handleToolsCall), Serve (ServeHTTP in its phases; IdType: the
--                 first byte of an id)
--   Upstream      internal/upstream/manager.go: the tool cache (doRefresh, getCache, Warmup) and
--                 the routing of calls (ToolsCall); Flight (the callers, the first load and the
--                 background refresh as steps); Stub (stubManager)
--   Audit         internal/audit: Hashing (hashchain.go), Table (sqlite_store.go), Logger
--                 (logger.go: Log), Writer (logger.go: flushBatch, runRetention), Loop (logger.go:
--                 run with the callers of Log as steps, Close), Open (NewLogger, NewSQLiteStore,
--                 the parsers of the retention's settings), Replay (replay.go, export.go, the
--                 scans), Stored (logger.go: eventToStored), Console (logger.go: the stdout and
--                 the no-op logger), Service (Log and Close of each logger, and
--                 their goroutines' turns)
--   Transport     internal/transport: the client's configuration (mcp_http_client.go) and the
--                 server's (http.go); Calls (call, ToolsList, ToolsCall)
--   Startup       cmd/mcpshield/main.go: buildEntries; Parts (runServe up to the server), Reload
--                 (SIGHUP), Warmup (runWarmupUntilReady), Commands (the other commands)
--   Serving       cmd/mcpshield/main.go: ServeHTTP over the engine, the manager and the logger that
--                 runServe makes; Runs (its requests, reloads, warm-ups, refreshes and the audit
--                 writer as steps)
--   Mock          examples/mock-upstream/main.go: the demo server
-- The files below these hold the theorems, named for what they show. The files whose names end in
-- Tests hold concrete inputs.
--
-- Conventions. A Go map is an association list, in which a key stands once where that matters
-- (IsMap). A pointer that may be nil is an Option. An error is a value of a data type with one
-- constructor for each message. A clock reading is an argument, one for each call of the clock, in
-- nanoseconds as a native natural number; a duration or a limit that the code rejects unless it is
-- positive is an integer before the check and a natural number after it. Subtraction of clock
-- readings, for an event's duration, stops at 0, as a monotonic clock does not go back. Counters do
-- not wrap: the code counts in 64 bits; the ids of requests and the days of a retention do wrap, as
-- written there. The functions of the gateway take the policy engine, the
-- upstream manager and the audit logger as records of operations over states of their own; a
-- mutex makes an operation one step. In Serving a whole request is one step, although no mutex
-- covers it: requests that overlap are taken to run one after the other. Only the rounds of
-- TrimToSize use fuel, one more than there are rows: each round deletes a row or is the last one.
-- Every other loop goes down a list or a number.
--
-- Parameters, for code that is not in the repository: the file system, environment variables, the
-- YAML and JSON decoders, the regexp package, time.ParseDuration, strconv, SHA-256, the hex codec,
-- json.Marshal, the HTTP exchange with an upstream, the order of ids in SQLite, its statements, and
-- the size of the database files. A theorem about the hash chain names the two payloads that must
-- not collide. In the loop of warm-up attempts the list of clock readings stands for the attempts
-- that the context leaves time for.
--
-- Not modelled: cancellation and timeouts of contexts, requests that interleave, refreshes that
-- overlap on the network, flags, signals and the HTTP server's shutdown in cmd/mcpshield, a writer
-- of replay or export that fails, the text format of the metrics page, and observability.go, which
-- only builds a slog logger.
mod Prelude
pub mod Mcp
pub mod Policy
pub mod Metrics
pub mod Gateway
pub mod Startup
pub mod Serving
pub mod Mock
pub mod Transport
pub mod Upstream
pub mod Audit
pub mod Auth
pub mod Config
