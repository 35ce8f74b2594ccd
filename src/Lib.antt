-- ===== src/Lib.antt =====
-- Verification of engram's daemon core and of the server's in-memory components.
--
-- The engram daemon hosts modules. A module registers with the registry before the registry is
-- frozen; the lifecycle pipeline then starts the modules in registration order, saves and restores
-- their state across restarts, and shuts them down in reverse order; the dispatcher answers the
-- sessions' JSON-RPC requests by calling the module that owns a tool, or the one proxy provider.
-- The worker keeps the active sessions with their message queues, and a ring buffer of its log.
-- Its HTTP handlers stand behind a gate that authenticates each request, and it streams events to
-- the dashboard. When a project is removed on the server, its event bus tells the daemons'
-- streams; the daemon's bridge passes each removal on to the modules, from the stream or from a
-- heartbeat. A core module of the daemon reaches the server by pooled gRPC connections, under a
-- project's cached slug. The worker limits the rate of its clients' requests, cuts documents into
-- chunks, strips private text, deletes projects that were removed long ago, and answers which
-- memories a tool call brings back.
--
-- Files, with the code that each is about (paths from the repository's root):
--   Prelude       shared names, Boolean tests, lists over the native numbers, Go maps, texts as
--                 bytes, integers
--   Module        internal/module: EngramModule and the capability interfaces as records, whose
--                 fields say what a module's code does when it is called; the envelope of a snapshot
--                 (Module/Envelope)
--   Registry      internal/module/registry: Register, Freeze, ToolByName, AggregateTools,
--                 GetProxyToolProvider and the iterations over capabilities
--   Dispatcher    internal/module/dispatcher: HandleRequest, handleToolsList, handleToolsCall,
--                 callWithTimeout, drain mode (Dispatcher, Dispatcher/Routing), and the tracking of
--                 connected projects (Dispatcher/Tracking)
--   Lifecycle     internal/module/lifecycle: Start, ShutdownAll (Lifecycle, Lifecycle/Order),
--                 writeFileAtomic (Lifecycle/Storage), SnapshotAll and the manifest
--                 (Lifecycle/Snapshot, Lifecycle/Stored), Restore (Lifecycle/Restore,
--                 Lifecycle/RoundTrip, Lifecycle/Reliable), Drain (Lifecycle/Drain)
--   Session       internal/worker/session/manager.go: the session map, InitializeSession, the
--                 queues (Session, Session/Ops), sequences of calls (Session/Calls), interleavings
--                 of critical sections (Session/Race)
--   LogBuffer     internal/logbuf/ring.go: Write, Snapshot, Subscribe
--   Dedup         internal/handlers/serverevents/dedup.go: the LRU cache that Mark keeps
--   Bridge        internal/handlers/serverevents/bridge.go: the handling of stream events and
--                 heartbeats (Bridge, Bridge/Announce, Bridge/Delivery) and the reconnection loop
--                 (Bridge/Backoff)
--   EventBus      internal/worker/projectevents/bus.go: Subscribe, the function that it returns, Emit
--   GrpcServer    internal/grpcserver: SyncProjectState (GrpcServer/Sync), a heartbeat from end to
--                 end (GrpcServer/Heartbeat), ProjectEvents (GrpcServer/Events,
--                 GrpcServer/Events/Order)
--   Auth          internal/auth: Validate (Auth, Auth/Validate, Auth/Keycards); and the TokenAuth of
--                 internal/worker/middleware.go (Auth/Requests, Auth/Cookies, Auth/Middleware,
--                 Auth/Gate)
--   Sse           internal/worker/sse/broadcaster.go: the clients (Sse, Sse/Clients) and the channels
--                 that tell them to stop (Sse/Dead)
--   Clustering    pkg/similarity/clustering.go: ClusterObservations, IsSimilarToAny
--   Transcript    internal/sessions/parser.go: ParseSessionReader
--   Conflict      pkg/models/conflict.go: DetectConflict, DetectConflictsWithExisting
--   RateLimit     internal/worker/ratelimit.go: RateLimiter, PerClientRateLimiter
--   GrpcPool      internal/handlers/engramcore/grpcpool.go: getOrDialGRPC, closeAll
--   SlugCache     internal/handlers/engramcore/slugcache.go
--   Markdown      internal/chunking/markdown/chunker.go: ChunkContent, selectBreaks
--   GrpcServer    also internal/grpcserver/version_negotiate.go: NegotiateVersion
--                 (GrpcServer/Version)
--   Triggers      internal/worker/trigger_matcher.go: matchMemoryTriggers, sessionSignalPath
--   Privacy       internal/privacy/stripper.go: StripPrivateTags, Clean
--   Reaper        internal/worker/reaper/reaper.go: retentionDays, PurgeOnce
-- In each of them the child Tests runs the definitions on concrete data.
--
-- How the code is represented. A Go map is an association list. A slice index out of range and a
-- call through a nil interface are outcomes of their own. A panic, an error and a success of a
-- module's function are values that the function's field of the module gives, so a property that
-- speaks of every module speaks of every such behaviour; Tools() is taken to return the same list
-- each time, as its contract says. The registry's module calls and the pipeline's are recorded in
-- order. A session that is shared by pointer is a cell of a heap, and a channel is its buffer.
-- Each function of Session is one critical section, so that an interleaving is a composition of
-- them. The loops are structural recursion on lists or on the positions left: no fuel is used but
-- in Clustering, whose outer loop takes as many steps as there are observations, which is enough
-- since each step passes one, and in the sorting loops of Markdown, which take as many steps as
-- there are elements, as the source's do. Goroutines that share a map (GrpcPool) are a schedule, a
-- list of the goroutines that take the next step. Floating-point numbers are exact: RateLimit
-- counts tokens in billionths, and Markdown multiplies its scores by a common factor. A loop that
-- runs until its context is cancelled (the bridge's stream, a client's stream) is a recursion over
-- the list of the rounds that its environment grants it.
--
-- Parameters: the file system with package os's documented behaviour, the JSON encoding of the
-- manifest (Lifecycle.Storage, with Lifecycle.Disks as a model of it), the session table
-- (Session.SessionStore), the string, time and JSON functions of the log buffer
-- (LogBuffer.TextOps), encoding/json (Module.Envelope), bcrypt and the keycard store
-- (Auth.Validator), base64, HMAC and the user and session stores (Auth.Requests), the queries of
-- the project table (GrpcServer.Sync), the similarity of observations (Clustering), the patterns
-- and text functions of the conflict detection (Conflict.Texts), url.Parse and the digits of
-- SHA-256 (GrpcPool), strings.TrimSpace (Markdown, Privacy, GrpcServer.Version) and the digits of
-- a number (Markdown), what git answers (SlugCache), what the file of a session holds and the
-- hooks that tests set (Triggers). Texts that the code walks are lists of bytes, identifiers in a database are natural
-- numbers, and module names are taken to be plain path elements. In Transcript a line is what the
-- scanner, encoding/json and time.Parse made of it, and Markdown takes the lines that the scanner
-- found.
--
-- Not modelled: logging, metrics, contexts but for their cancellation where a loop tests it, the
-- bytes of the JSON-RPC messages, the storing of the module contexts in Init, the database, the
-- transport of the HTTP and gRPC servers, the MCP tools, embeddings and the user interface.
pub mod Prelude
pub mod Module
pub mod Registry
pub mod Dispatcher
pub mod Lifecycle
pub mod Session
pub mod LogBuffer
pub mod Dedup
pub mod Bridge
pub mod EventBus
pub mod GrpcServer
pub mod Auth
pub mod Sse
pub mod Clustering
pub mod Transcript
pub mod Conflict
pub mod RateLimit
pub mod GrpcPool
pub mod SlugCache
pub mod Markdown
pub mod Triggers
pub mod Privacy
pub mod Reaper
