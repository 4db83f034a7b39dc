-- ===== src/Lib.antt =====
-- OOF RL, a companion program for Rocket League: the game's messages become events, the events go
-- over a bus to the recorder of the match history and to the plugins.
--
-- Wire: internal/events/types.go, the decoded messages of the game's API.
-- Oofevents: internal/oofevents. Types and New are types.go and eventtypes.go; Bus is impl.go and
--   bus.go. A method that changes a busImpl takes the bus and returns it; goroutines are a schedule of
--   actions, and `run` says what a schedule lets be seen. Another goroutine may act between the two
--   halves of publish, its test and its send, and of call, its test of `cancelled` and the handler.
-- Rlevents: internal/rlevents/translator.go. A method returns the new Translator and its
--   publications; the decoder encoding/json is the parameter `Json`, the clock the parameter `now`.
-- Histstore: internal/histstore. Store is the writing half of store.go on the tables of schema.go,
--   which are lists of rows; `faults` says which of the next statements fail. Players and Recorder are
--   recorder.go: a handler takes and returns the recorder and the database, and Recorder.Run is what
--   Subscribe makes of the handlers. The parameters are `now`, the order `range` in which a range
--   statement visits a map, and `last_insert_id`, the driver's LastInsertId where no row was inserted.
-- Dejavu: plugins/dejavu/logic.go. Roster is buildRosterRows and what it calls, History
--   aggregateEncounterRows and the accessors of a row, Recall the state, the events and the cache,
--   Requests the handlers of requests. Requests.Run is a session: events and requests in the order in
--   which the locks let them in. The parameters are `answers`, what the host's query returns, and
--   `Runtime`, the code that formats values, converts floats and reads times.
-- Update: internal/update/update.go; Versions is IsNewer, parseSemver, compareSemver and what they
--   call, with int as an int64 whose arithmetic wraps.
-- Core: internal/core/server.go. Plugins is the set of plugins and topoSort, Loading is LoadPlugins,
--   LoadWASMPlugins and InitPlugins. Of a plugin the model keeps its id and requirements; `starts` says
--   whether Init succeeds, and an entry of the folder carries what wasmhost.Load returned. The loop over
--   the queue has as much fuel as there are plugins.
-- Mmr: internal/mmr. Mmr is mmr.go, identity.go and strutil.go; Fallback is fallback.go, with the list
--   of the providers called beside the result; Cache is cache.go over the table of internal/db/db.go,
--   `lookup_ranks` being lookup where no other runs, and Cache.Lookups the steps of lookups that
--   interleave; Requests is how handler.go reads a request. The parameters are `Json`, what the
--   providers answer, the context's errors, the times and the faults of the database.
-- Session: plugins/session/logic.go. Session is the reading of rows and the two loops that sum up
--   matches, Session.Requests the state `since`, the table sessions and the handlers. `Runtime` is the
--   code outside, `Outside` what one request meets: the clock, faults, and the rows of the queries.
-- Wasmhost: internal/wasmhost/metadata_validation.go and RoutePaths of routes.go.
-- Live: plugins/live/logic.go; a player is a decoded JSON object, an association list.
-- Config: internal/config/config.go, the settings by key and what Load does to a decoded file; `Env`
--   is what the environment, the file system and the build say.
-- Prelude: strings as lists of code points, maps as association lists, signed integers.
-- BusTests, RleventsTests, HiststoreTests, DejavuTests, UpdateTests, CoreTests, MmrTests,
--   SessionTests, WasmhostTests, LiveTests, ConfigTests: the theorems at concrete inputs, and tests.
--
-- Bounds: the channel of the bus holds 256 events. Integers have no bound, except in Versions, in
-- parse_int, which stays within int64, and in itoa, whose 20 digits are more than an int64 has. No
-- other loop but that of topoSort needs fuel.
--
-- Not modelled: logging, the serving of HTTP, the window and the overlay, the WASM runtime and the
-- host's calls of it, the game client's sockets, the hub, the rank providers' scraping, the upload
-- plugin, the text of the SQL statements, the history's queries that only read, SQLite's own code.
pub mod Prelude
pub mod Wire
pub mod Oofevents
pub mod Rlevents
pub mod Histstore
pub mod Dejavu
pub mod Update
pub mod Core
pub mod Mmr
pub mod Session
pub mod Wasmhost
pub mod Live
pub mod Config
mod BusTests
mod RleventsTests
mod HiststoreTests
mod DejavuTests
mod UpdateTests
mod CoreTests
mod MmrTests
mod SessionTests
mod WasmhostTests
mod LiveTests
mod ConfigTests
