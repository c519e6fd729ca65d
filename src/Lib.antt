-- ===== src/Lib.antt =====
-- Verification of tsdns, a TSDNS server: TeamSpeak clients send it the name of a server, and it
-- answers with addresses that a repository holds.
--
-- The parts and their files
--   core/handler.go   One connection is one query. Core/Query models `parseQuery`, Core/Response
--       `buildResponse`, Core/Lookup `lookupRecord`, and Core/Handler `handleQuery` with `handleHit`
--       and `handleNotFound`: the bytes that are read, the texts that are sent, the metrics.
--   core/cache.go     Core/Cache models `processRecords` and the sort of the wildcards, which turn the
--       records into three tables, and Core/Glob `domainToRegex`. `loadCache` is in Core/Server.
--   core/record.go, core/server.go   Core/Record has `Record` and the interface `RecordRepository`,
--       Core/Server the state `Server` and the operations of the record manager, which change the
--       repository and then refresh the tables, and `Close`. Core/Server/Contract states what the
--       server relies on a repository for; Core/Metrics has the events of core/metrics.go.
--   repository/sql/sql.go   Repository/Sql models the methods of the SQL repository, with
--       `groupModels`, over a database whose statements are parameters (Repository/Sql/Statements,
--       with what SQL documents of them). Its lemmas are in Writing and Atomic (what `Create` leaves), Rows and
--       Contents (what rows stand for), Grouping, and Storage, which fills the server's contract.
--       Repository/Sql/Setup has `NewRepository`.
--   repository/redis/redis.go   Repository/Redis models the methods of the Redis repository, over a
--       client, `time` and `encoding/json` as parameters (Repository/Redis/Client, with their laws).
--       Encoding has the hash of a record, Commands the keys and the transactions, Setup
--       `NewRepository`. The lemmas are in KeyNames (keys differ), RoundTrip, Writing (what commands
--       do), Indexed and Deleting (the invariant of the store), Reading, Creating, Removing, Storage,
--       which fills the server's contract, and History (sequences of calls).
--   internal/storage/storage.go   Storage models `parseDSN`, `Detect` and `Open`, with the hosts and
--       ports in Storage/Hosts and the DSN of each backend in Storage/Backends.
--   internal/api/handlers.go, internal/api/auth.go, internal/api/server.go
--       Api models the handlers of the HTTP interface on the server of core/, the targets of a request
--       (Api/Targets) and `authMiddleware` (Api/Auth). The mux's choice of a handler and the decoded
--       body are fields of a request. Api/Listener has `ListenAndServe`, up to its wait for an error.
--   core/server.go, core/cache.go   Core/Running has `Start`, `cacheUpdater`, and the events of a running
--       server as a step relation; Core/Running/Overlapping has refreshes that overlap with changes;
--       Core/Builder has `NewServer`, the With functions and `Build`.
--   internal/importer/tsdnsini/parser.go   Importer models `Parse`; `ParseFile` is in
--       Cli/Import/Command.
--   internal/cli/import.go   Cli/Import models `importEntries`, which fills a repository, and
--       Cli/Import/Command `runImport`.
--   internal/cli/serve.go, internal/cli/migrate.go   Cli/Serve models the set-up in `runServe`,
--       `setupLogger` and the end of the wait, Cli/Serve/Answers puts the server behind it, and
--       Cli/Migrate models `migrate`.
--   internal/cli/records.go   Cli/Records models `records add`, `delete` and `list`, with the client of
--       the API in Cli/Records/Client and `url.PathEscape` in Cli/Records/Escape. The network is a
--       parameter; Cli/Records/Served and Cli/Records/Deleted put the server of Api behind it.
--   internal/config/config.go   Config models `Default`, `Load`, `ApplyEnv` and `Validate`.
-- Prelude, Text, Maps and Net have what the program uses of Go: strings as lists of bytes
-- (TrimSpace, Index, ParseUint, Itoa), maps, and netip.Addr. Examples has runs on small inputs.
--
-- How the state corresponds
--   Operations take the state and return it with their result; an error is a value. A server is its
--   repository's state, the three tables, and the list of metric events. The tables are written and
--   read as one value, as under the lock `mu`. A connection is the bytes that its one read gives, a
--   flag for failing writes, and the texts sent. A nil pointer is `none`. Calls of a repository may
--   fail and may change its state in any way; laws on it are hypotheses of the theorems that use them.
--
-- Numbers and bounds
--   Ports, lengths and indices are natural numbers; `ParseUint` is modelled with its range of 16 bits,
--   so the model has no conversion to `int32`.
--   A read gives at most 512 bytes. Loops run over lists by structural recursion. Only the digits of a
--   number are computed on fuel: the number itself, of which each round leaves a tenth.
--   IPv6 text is read and printed with its zone and the compression of zeros.
--
-- What is not modelled
--   The body of an upsert request is given decoded: it is `none` over the limit of 1 MiB, and where
--   the decoder fails. The JSON that the client sends is taken to be of valid UTF-8, which `json.Marshal`
--   encodes without an error and without replacing a byte. `records add --direct` is modelled apart, as
--   `upsert_record_direct`. A Unix socket is opened behind the listener for TCP.
--   Package regexp: which patterns compile and what they match is the parameter `Regexp`; its
--   documented meaning for the expressions of globs is the hypothesis `ReadsGlobs`. Logging,
--   durations, contexts and the network. A write is of the whole text or fails. Goroutines: every
--   operation is one step, but for the two halves of a refresh in Core/Running/Overlapping. What
--   databases do beyond the laws in Repository/Sql/Statements, where texts are compared byte by byte,
--   and Redis beyond those in Repository/Redis/Client, where no other client writes. `url.Parse` and
--   `url.Values` are parameters. The times that `Create` of the Redis repository writes into its
--   caller's record are not handed back. What the HTTP library does with a listener,
--   the time-out of a shutdown, JSON, YAML, and the flags and output of the command line.
pub mod Prelude
pub mod Text
pub mod Maps
pub mod Net
pub mod Core
pub mod Repository
pub mod Examples
pub mod Api
pub mod Cli
pub mod Config
pub mod Importer
pub mod Storage
