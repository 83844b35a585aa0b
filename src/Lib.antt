-- ===== src/Lib.antt =====
-- A task tracker for teams: a Go service (cmd/api, internal/...) that keeps users, teams,
-- memberships, tasks and the history of tasks in MySQL and pages of tasks in Redis, behind an HTTP
-- API.
--
-- The parts, and the files that model them:
--   * Domain (internal/domain): roles, tasks, filters, patches and pages as records, with
--     `Normalize`, `Validate` and `Empty`. Domain/Paging is about page numbers and sizes.
--   * Service (internal/service): `TaskService`, `TeamService`, `AuthService` and
--     `AnalyticsService` are records of gateways (Service/Gateways) over any state `W` of the world;
--     their methods are functions of the same names, in snake_case, written as do blocks that make
--     the calls in the order of the code. Service/Authorization has the two rules of
--     authorization.go, Service/Authorization/Policy their declarative form; the children of
--     Service/Tasks, Service/Teams and Service/Auth are about the methods of each service.
--   * Store (internal/store): Store/Database is the server: the tables with the constraints of
--     migrations/000001_init.up.sql (Store/Database/Schema), statements and transactions.
--     Store/Tasks, Store/Teams and Store/Users are the repositories of internal/store/mysql, and
--     Store/Audit is `buildHistory` of task_repo.go. Store/Cache is internal/store/rediscache: Redis
--     with GET, SET and INCR, and the cache of pages over it; Store/Cache/Pages is about a page that
--     is stored, Store/Cache/Versions about one that is invalidated, or stored too late.
--     Store/Reports has the queries of analytics_repo.go as functions on the tables, with
--     the count behind a place in Store/Reports/Places and who is listed in
--     Store/Reports/Listing, and Store/Connection the retries of `NewDB` in db.go and the address for migrations.
--   * Tokens (internal/auth/jwt.go): `Generate`, `Parse`, and in Tokens/Middleware the middleware
--     that asks for a token. Limiter (internal/ratelimit) is the Lua script, over numbers whose laws
--     are in Limiter/Numbers. Mail (internal/email) sends invitations behind a breaker. Config
--     (internal/config) loads the configuration.
--   * Http (internal/httpapi): `respondError`, and the numbers of paths and queries, of render.go.
--     Http/Requests is how a request is read; Http/Accounts, Http/Teams, Http/Tasks and Http/Reports
--     have the handlers, Http/Limits is the middleware `RateLimit`, and Http/Router the routes of
--     router.go with the middleware around them; Http/Router/Guarded is about the routes that want a
--     token.
--   * App (cmd/api/main.go): the services over the repositories and the cache, and App/Server the
--     handler from a configuration. App/Members has the rows behind the checks of a request, and
--     App/Authorized those behind a task that is created or changed. App/Server/Served follows one
--     request from its header to the rows, App/Coherence the cache through a run of
--     requests, and App/Ownership the owners of teams; App/Preserving is what the last two share.
--   * Common: tests, lists, 64-bit integers, texts, decimal numbers, errors.
--   * Tests: runs on concrete data.
--
-- How code becomes a definition: a method is an action, a function from the state to a result and a
-- new state; an error is a value with the sentinels that it wraps and its message, which is kept as
-- a format and not rendered. A string is the list of its code points. `int` and `int64` are
-- integers, with the wrap-around of the two places that multiply page numbers written out. Times
-- are seconds.
--
-- The database carries out one statement after another. `faults` lists what becomes of the next
-- statements, so that each may fail, with any error.
-- A transaction keeps its changes only if its body ends in a commit that succeeded; the counters of
-- AUTO_INCREMENT are not rolled back. A COMMIT that is answered with an error is taken to have
-- failed: a commit that the server has carried out while its answer was lost is not modelled. The cache has such a list too.
--
-- There is no fuel in the model but that of the decimal form of a number, which is one more than
-- the number itself and so never runs out.
--
-- Parameters, for code that is not in the repository: encoding/json on pages and bodies, yaml.v3,
-- bcrypt, github.com/golang-jwt/jwt, gobreaker and the HTTP client of the mail service,
-- unicode.ToLower, the server's comparison of addresses, net.SplitHostPort, the page of promhttp,
-- and the arithmetic of Lua. In App/Server the answers of the limiter are given too, since its
-- buckets are not in the world.
--
-- Not modelled: how chi finds a route, and its middleware RequestID, RealIP and Recoverer; the start
-- and the shutdown of the server, the calls of golang-migrate, the registration of metrics, and
-- logging; two requests at once, since the model runs one after another; the deadline of a context
-- but where `NewDB` waits; bytes of a string that are not UTF-8. INCR is not bounded to 64 bits, and
-- Redis keeps what it has stored until it expires.
pub mod Common
pub mod Domain
pub mod Service
pub mod Store
pub mod Config
pub mod Limiter
pub mod Mail
pub mod Tokens
pub mod Http
pub mod App
pub mod Tests
