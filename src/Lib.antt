-- ===== src/Lib.antt =====
-- Serverpouch: servers that run in docker containers, managed over an HTTP API.
--
-- The program's parts and the files that model them:
--   internal/domain/server/instance.go: Server (the statuses and the config type).
--   internal/infrastructure/docker/config.go: Docker/Config (DockerServerInstanceOptions, and
--     toOptions as `to_options`); its laws are in Docker/Config/Published.
--   internal/infrastructure/docker/instance.go and action.go: Docker/Instance. A
--     dockerServerInstance is the record `Instance`; what its emitters dispatch is a log, the
--     oldest first. `start`, `stop`, `kill` and `update_status` take the state and give the new one.
--   internal/infrastructure/docker/lifecycle.go: lifecycleInit and the goroutine that calls it are
--     Docker/Init; the goroutine `lifecycle`, lifecycleAction and Close are the step relation of
--     Docker/Lifecycle, over any number of concurrent calls. A call that Docker/Instance or
--     Docker/Init describes as one function runs there from `acquire` to `release`. What the goroutine
--     of NewInstance does after its initialization is `Starts` there; in Docker/Init, the argument
--     `others` of `run_init` is what the actions and the timer do in between.
--   internal/delivery/http/openapi/server.go: Openapi/Patterns (the regular expressions) and
--     Openapi/Convert (the docker options to their API form and back).
--   internal/delivery/http/openapi/openapi.gen.go: Openapi/Union (the union ServerConfig, and
--     ServerToOAPI, ConfigToOAPI and OAPIToConfig of server.go over it) and Openapi/Strict (the
--     responses and what the strict handlers make of them: the calls on the http.ResponseWriter).
--     Openapi/Routes is the route table, over the router of chi (`Router`, with what is documented
--     of its patterns); Openapi/Routes/FirstFit is such a router. Openapi/Spec is the embedded
--     specification, over the libraries that decode and load it.
--   internal/domain/usecases: Usecases, over the interfaces of Usecases/Interfaces (the database and
--     the server instances); Docker/Servers gives docker's instances as such server instances.
--   internal/infrastructure/database/servers.go: Database, over the calls of schema.Queries (the
--     record `Queries`); `database` is what the use cases are given.
--   internal/delivery/http/server.go: Http. A handler takes the registry and gives its response,
--     `CreateServer` the registry after it too; the functions `serve_...` are the generated code
--     around the handlers.
--   internal/delivery/http/http.go and internal/delivery/http/openapi/openapi.go: Http/Mux, the
--     validator, the routes and the handlers as one function of a request and the registry.
--     Http/Contract is what the API promises, with the registry as a function from identifiers to
--     configs: Http/Contract/Refines is about every sequence of requests, and Http/Contract/Stays
--     about one server through such a sequence; Http/Contract/Started puts it over the database and
--     its queries, and Http/Contract/Durable goes on through a restart.
--   internal/infrastructure/database/schema/servers.sql.go: Schema, over the driver (`Driver`);
--     Schema/Serves says what a database that serves the statements does, and fills what Database
--     relies on; Schema/Memory is such a database.
--   The use cases over the database and the queries, through a restart of the process:
--     Usecases/Restart, and as a client of the API sees it: Http/Restarted.
--   internal/domain/usecases/servers.go, CreateServer, by any number of concurrent calls:
--     Usecases/Concurrent, with `srvMu` and its readers; `Keys` is what it needs of the database, and
--     Usecases/Concurrent/Taken fills it.
--   The three files context.go (internal/infrastructure/database, internal/infrastructure/docker and
--     internal/domain/usecases): Contexts.
--   internal/infrastructure/database/database.go, New: Database/Connected; and
--     internal/infrastructure/database/schema/schema.go, Migrate: Schema/Migrate.
--   internal/common/events/events.go: Events, a step relation over any number of concurrent calls.
--     Docker/Instance and Docker/Init use the log of what is dispatched in its place.
--   internal/domain/usecases/usecases.go, Close: Usecases/Closing, over the steps of
--     Docker/Lifecycle of all instances at once.
--   internal/infrastructure/docker/lifecycle.go, lifecycleInitAttach: Docker/Attach.
--   cmd/serverpouch/main.go: Main, the calls of the process in their order.
--   Common: Go's maps, results, decimal text and the equality of keys.
--
-- Conventions. A Go string is its list of bytes, an int is `ℤ`, a UUID is the number that its bytes
-- spell, and a slice or a map that may be nil is an `Option` of its entries. A map is read and
-- written by key; the order in which `range` visits it is the runtime's, so a function that ranges
-- over a map takes the visited entries as an argument, and its theorems hold for every such list
-- (`IsRange`). An error is its text, and `(T, error)` is `Result`, or a pair where both parts count.
--
-- Code that is not in the repository is a parameter: the docker client is the record `Client` over
-- the state of a daemon, the text of a UUID is a function, and errors.Wrap of github.com/pkg/errors
-- is the record `Errors`, with its documented result for nil. encoding/json is the record `Json`:
-- the type of the documents, and the encoder and decoder of the API's configs; `OptionsJson` is the
-- same for the stored options. The router of chi is `Router`; the validator of the requests and the
-- reading of a UUID from a path are in the record `Site`, and the calls of the database's driver in
-- `Driver`. What the theorems rely on is a law of these records or a hypothesis:
-- `IsFaithful` of the encoder and `Keeps` of the table in Database/Stored, and `Serves` in
-- Schema/Serves.
--
-- Loops are structural recursions on the visited lists. The decimal print recurs on the number plus
-- one, which bounds the digits.
--
-- Not modelled: the SQL of the migrations, log lines, the real time of the timer (it may fire whenever
-- the goroutine selects), the progress of a pull, and middlewares of the generated handlers, which
-- the program does not give. Of a context its values and its end are modelled. The calls of the
-- database are taken one after the other. The body of a pull is finite.
-- The preference that a sync.RWMutex gives to a waiting writer is left out: a reader may come first.
pub mod Common
pub mod Contexts
pub mod Server
pub mod Events
pub mod Docker
pub mod Openapi
pub mod Usecases
pub mod Database
pub mod Schema
pub mod Http
pub mod Main
