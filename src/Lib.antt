-- ===== src/Lib.antt =====
-- The server of this repository: an HTTP API of users and credentials over a repository, a cache and
-- a scheduler of tasks. A request passes the middleware (api/http/middleware), is decoded by a
-- handler (api/http/handler/v2), which calls a service (internal/service); the service reads and
-- writes through pkg/synq, which puts pkg/cache beside the repository (internal/repository); its
-- errors are those of pkg/errs, which pkg/jsonutil turns into responses. Lists are asked for in the
-- query of the request (pkg/paginate), which pkg/sqlutil turns into SQL. pkg/scheduler stores tasks
-- for a time and executes them.
--
-- Which file models what:
--   Common      Go's strings as bytes, maps as association lists, strconv.Atoi and 64-bit integers
--   Errs        pkg/errs: `http_status`, `grpc_status`, `new` (New), `not_found_error` (NotFound),
--               `caller`; the type `GoError` holds the `error` values that the program makes
--   Paginate    pkg/paginate: `parse_from_request`; a map is the list of its entries in the order in
--               which one loop visits them, and the theorems quantify over that order
--   Sqlutil     pkg/sqlutil: `where_query`, `order_by_query`, `limit_query`,
--               `build_pagination_query`, `paginated_list`
--   Domain      internal/domain, infra/migrations/model: users, statuses, rows
--   Cache       pkg/cache/cache.go; Cache/InMemory pkg/cache/in-memory.go; Cache/Remote redis.go and
--               memcached.go; Cache/Lawful the contract of a driver
--   Synq        pkg/synq: a `World` is the cache, the database and the goroutines not yet run;
--               Synq/Refinement runs of its methods, and the same runs of the database alone
--   Repository  internal/repository: the interface; Repository/Memory its in-memory implementation,
--               Repository/Sql the one over SQL, Repository/Mongo the one over MongoDB
--   Service     Service/Users internal/service/user.go, Service/Credentials internal/service/auth.go
--   Http        the responses of net/http, as far as the handlers write them
--   Jsonutil    pkg/jsonutil
--   Middleware  api/http/middleware/acl.go and middleware.go; Middleware/Gzip gzip.go, over
--               the ResponseWriter of net/http
--   Handler     api/http/handler/v2 and its dto; Handler/Routes the routes of the users
--   Scheduler   pkg/scheduler: registration; Scheduler/Loop the loop of Start as the relation `Step`;
--               Scheduler/Files file.go, over the three directories
--               Scheduler/Redis redis.go, over the sorted sets and the keys
--               Scheduler/Database sqldb.go, over a database
--   Mongoutil   pkg/mongoutil: `filter_aggregate`, `mongo_list`
--   Config      pkg/config: the loader; Config/Settings the records and their connection strings,
--               Config/Plain those without one
--   Server      pkg/server/webserver: the options and the construction of the server
--   Queue       pkg/queue/queue.go and in_memory.go; Queue/Redis redis.go
--   Tokens      pkg/auth: the managers of tokens, and pkg/hash; Tokens/Session a token from its login
--               to the request that carries it
--   Logger      pkg/logger, and `log_writer` (logWriter) of cmd/app
--   Bus         pkg/bus/bus.go and in-memory.go
--   Grpc        pkg/interceptor and api/grpc
--   App         cmd/app: App/Dependencies the clients that are opened once, App/Drivers the choice of
--               the drivers and the start of `run`, App/Web its web server, App/Shutdown its end as the
--               relation `Step`
--   Examples    concrete users, stores and tasks at which the theorems are applied
--
-- State is passed explicitly: an operation takes its store and returns the result, an error or a
-- value, with the store after it. Time is an argument in nanoseconds. A section that holds a lock is
-- one step. Every loop of the code is structural recursion over its list. Only the digits of a number
-- (`decimal`) are made on fuel, one more than the number: `decimal_step` says that it is enough. An
-- `int` of the code that can overflow wraps around at 64 bits.
--
-- Parameters: encoding/gob and encoding/json, compress/gzip, package validator, bcrypt, the token
-- libraries, package sqlx, the clients of MongoDB, redis, memcached, nats and rabbitmq, the texts of
-- times, ParseFloat, runtime.Caller, filepath.Join, and the calls of package os. A theorem that relies
-- on one of them says so by a hypothesis, whose record or predicate states what the library documents.
--
-- Not modelled: the brokers of the bus and Run of the servers, which pass on what their library
-- does; the gRPC server; the generated code; the other routes, the gateway, the signals and the
-- constructors that only pass values on; the compression of the list of users among the routes,
-- which Middleware/Gzip models for any handler; the command line tool; and all logging inside the
-- services.
pub mod Common
pub mod Errs
pub mod Paginate
pub mod Sqlutil
pub mod Mongoutil
pub mod Domain
pub mod Cache
pub mod Synq
pub mod Repository
pub mod Service
pub mod Http
pub mod Jsonutil
pub mod Middleware
pub mod Handler
pub mod Scheduler
pub mod Config
pub mod Server
pub mod Queue
pub mod Tokens
pub mod Logger
pub mod Bus
pub mod Grpc
pub mod App
pub mod Examples
