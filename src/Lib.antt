-- ===== src/Lib.antt =====
-- A rate limiter as a service: clients ask over HTTP whether a request of one of their users may
-- pass, the service finds the rule of the tenant for the route and counts the request in Redis.
--
-- The parts and the files that model them, in the order in which they build on each other:
--
-- - Errors: internal/domain/errors. A Go error is a sentinel value, a message or a wrapped error;
--   `is` is `errors.Is`. Messages keep their format strings and not the values put in.
-- - Entity: internal/domain/entity. Tenants, keys, rules (`validate`, `matches`, `specificity`) and
--   decisions. Entity/Validation and Entity/Matching hold their theorems.
-- - Resolver: internal/application/rule_resolver.go, the loop of `Resolve` as a fold over the list.
-- - Redis: internal/infrastructure/redis. Redis/Store is the part of the server that the scripts use,
--   a function from keys to values with an expiry time. Redis/Keys is keys.go, Redis/TokenBucket and
--   Redis/SlidingWindow are the two scripts of scripts/, Redis/Limiter is rate_limiter.go.
--   Redis/SlidingWindow/Spec is its script without the store, a machine on three numbers, and
--   Redis/SlidingWindow/Meets says without the script's arithmetic what it is to answer and to keep.
--   Provisioning/Texts says in the same way which names and hashes are accepted.
-- - Auth: internal/application/auth_service.go over the ports of internal/domain/ports.
-- - Check: internal/application/check_service.go over the ports for the rules and the limiter.
-- - Provisioning: internal/application/provisioning_service.go over the port of
--   internal/domain/ports/project_writer.go; Provisioning/Accepted says what reaches the store.
-- - Postgres: the tables of migrations and the statements of internal/infrastructure/postgres on them.
--   Postgres/Projects is the transaction of `CreateProject`, with a fault before or after the effect of
--   each exchange; Postgres/Keys adds and revokes keys.
--   Postgres/Dashboard reads the projects, Postgres/History is the sequences of calls, and
--   Postgres/Consistency is about the references between the tables.
-- - Observability: internal/observability, as lists of the labels that were counted.
-- - Http: pkg/httputil. A handler gets the headers set so far, a request and a state, and answers once.
--   Http/CheckHandler, Http/ConfigHandler and Http/ProjectHandler are check.go, config.go, and
--   project.go with admin.go of internal/transport/http/handlers, Http/Middleware and
--   Http/SignupLimit are internal/transport/http/middleware.
-- - Cache: internal/infrastructure/cache/rule_cache.go.
-- - Http/Mux is what is used of http.ServeMux, Http/Health and Http/Logging are health.go and
--   logging.go, and Http/Server is internal/transport/http/server.go: the table of the routes and the
--   middleware around them.
-- - Config: internal/config/config.go.
-- - Startup: cmd/server/main.go with pool.go, client.go and the loading of the scripts. Startup/OnStores
--   puts the services on the tables, the keys and the cache of the rules; Startup/Guarded, Startup/Checked and Startup/Revoked
--   follow a request through the whole server.
-- - Migrate: cmd/migrate/main.go, with a fault before or after the effect of each exchange.
-- - Examples: the client and the handlers of the programs of examples.
-- - Tests: runs on small inputs.
--
-- Numbers in decimal, sorting and lists with distinct keys are in Prelude/Decimal, Prelude/Sorting and
-- Prelude/Distinct.
--
-- Conventions. An `int64` is an integer of Prelude/Int; the code does no arithmetic on them that could
-- wrap around, since costs stay below a million. A Go string is the list of its bytes, a UUID a number
-- with 0 for the nil one, and labels of an enumeration are strings. The refill rate, a `float64` in the
-- source and NUMERIC(10,2) in the database, is a whole number of millionths of a token per second, and
-- the scripts compute exactly: tokens are counted in thousand-millionths, and the weighed count of a
-- window in parts of one second. The rounding of Lua's doubles is thus left out. A script of Redis is
-- atomic, so that concurrent requests are a sequence of runs on one store; each run has its own time
-- of the caller (`now_ms`), of the server's clock, and an outcome of the connection (`Link`).
--
-- SHA-256, the printing of UUIDs and the tables of the package `unicode` are the fields of `Platform`;
-- what is relied on of them is `IsRegular` in Redis/Keys/Distinct. What the Lua interpreter does with
-- parameters that no valid rule has (a negative limit, a window of 0 seconds) is the parameter `odd`.
-- The JSON decoder (`unmarshal`), `uuid.Parse` (`parse_uuid`) and the ids that the server makes
-- are parameters too. A regular expression of the source is a predicate on the bytes of a text.
-- The loops are structural on lists. Only the digits of a number (Prelude/Decimal) are made on fuel, one
-- more than the number, which is enough since each step divides by ten.
--
-- Not modelled: percent escapes in paths and the query of a redirect; durations in logs and metrics, and
-- time.ParseDuration, which is a parameter; a negative time to live of the cache of the rules, which is
-- taken for 0; the listener, the signals and the shutdown, of which only the outcomes are
-- taken; the seed of the migrations and the SQL of their files; the reverse proxy and the start of the
-- example programs.
pub mod Prelude
pub mod Errors
pub mod Entity
pub mod Resolver
pub mod Redis
pub mod Auth
pub mod Check
pub mod Provisioning
pub mod Postgres
pub mod Observability
pub mod Http
pub mod Cache
pub mod Config
pub mod Startup
pub mod Migrate
pub mod Examples
pub mod Tests
