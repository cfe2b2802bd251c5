-- ===== src/Lib.antt =====
-- field-docket: an append-only docket of observations, kept in one SQLite database and served to
-- agents over two tools, `record_observation` and `review_observations`.
--
-- The parts of the program and their interaction. A handler (internal/server) trims and checks its
-- input, normalises what groups, and calls the store; the store (internal/store) mints an id,
-- stamps the time and inserts one row (`Append`), or reads a page, the total and the tally of one
-- snapshot (`List`). Opening the store connects, retrying while another process holds the lock, and
-- migrates the schema. The command (cmd/field-docket) reads its settings (internal/config), finds
-- the store, and checks the permissions of its files before it opens it; then it serves the two
-- tools, or for the subcommand `snapshot` writes a copy of the docket (`Snapshot`).
--
-- The files.
--   Base: the library's names, Boolean tests, lists over the native numbers, and the order of Go
--   strings with the lemmas that compare texts field by field.
--   Go: what is used of Go's standard library: error values (Go/Errors), %d and padded numbers
--   (Go/Decimal), strings (Go/Text), instants with their civil date (Go/Time), time.Parse for RFC 3339
--   (Time/Rfc3339), the JSON text of a string (Go/Json), file paths (Go/Path), the arguments of one
--   string flag (Go/Flag), and the environment (Go/Host).
--   Store/Types: Observation, Record, Filter, ClassCount of internal/store/store.go.
--   Store/Clock: timeLayout and formatTime; Clock/Parsed is about reading stored stamps back.
--   Store/Id: newUUIDv7 of internal/store/id.go.
--   Store/Filter: Filter.where, as the clauses and arguments that it appends. Filter/Clauses is the
--   SQL meaning of those clauses, Filter/Matches what a filter should match.
--   Store/Key and Store/Tally: what ORDER BY and GROUP BY of the queries mean.
--   Store/Sqlite: the database driver as a parameter, a record of operations on SQL text with the
--   laws of documented behaviour that the store relies on. Sqlite/Memory is a database in memory
--   that parses the SQL text and meets the laws.
--   Store/Append: Append. Store/Listing: List, its answers, the paging cursor, and what an
--     append adds to a listing.
--   Store/Schema: migrate and its ladder of internal/store/schema.go, over a driver with
--   transactions, whose laws stand in Schema/Driver. Store/Opening: initialize. Store/Closing:
--   Close. Store/Open: Open and dsn, over the operating system and the driver; Open/Accounts
--   follows the handles. Store/Location:
--   DefaultPath of internal/store/path.go. Store/Snapshot: Snapshot; Snapshot/Views says what its
--   operations do to files, Snapshot/Watched records the states between its steps.
--   Store/Permissions: internal/store/permissions.go, over the operating system as a parameter.
--   Permissions/Modes is about the mask of the mode test, Permissions/Private says which files are
--   private, and Permissions/Quoting has the tokenizer of a POSIX shell.
--   Server/Types: deps, clientName and the outcomes of a handler. Server/Record: recordObservation
--   of internal/server/record.go. Server/Review: reviewObservations of internal/server/review.go.
--   Server/Clip: clip. Server/Session: sequences of records on one docket. Server/Docket: sequences
--   of calls of both tools, and a list of observations as the docket that they should be calls on.
--   Review/Pages and Review/Consistent: what an answer holds.
--   Review/Walk: the paging that reviewDescription tells a caller to do, by as many reviews as its
--   fuel says. Server/Middleware: tolerateNullArguments of internal/server/server.go.
--   Server/Schema: recordSchema, reviewSchema and mustSchema, over the schema that jsonschema.For
--   infers as a parameter; Schema/Admission says what a published schema lets through.
--   Server/Registration: New, as what it hands to the MCP library.
--   Config: Load, configPath and expandTilde of internal/config/config.go, over yaml.Unmarshal as a
--   parameter. Command: resolveStore, allowlisted and parseConfigFlag of cmd/field-docket/main.go.
--   Command/Main: main, runSnapshot, run and isCleanShutdown, over a machine that is the platform of
--   Store/Open with the operations of Store/Snapshot, the log and the server's Run.
--   Tests: runs of the code at concrete inputs.
--
-- Conventions. A Go string is its list of bytes. A time counts nanoseconds from the year 0, before
-- which neither a clock nor RFC 3339 gives an instant in UTC; a text that its zone puts before that
-- is left to the lenient parser. The 64-bit pattern of UnixMilli and the masks of newUUIDv7 are
-- written out. State is passed explicitly: a call returns the database after it. What a clock,
-- rand.Read, Unicode lower case, os.Lstat and database/sql yield are arguments; time.Parse is an
-- argument of a review, and is given as the strict parser of RFC 3339 with the lenient one behind
-- it as an argument. The retry loop of initialize recurses on the attempts that are left, twelve in
-- all; the search for the civil year has one more step than there are days, which every year
-- shortens by at least one. log.Fatalf ends a run with a status of its own, behind which nothing
-- that is deferred happens.
--
-- Not modelled: what the MCP library does with the tools that it is given, and jsonschema.For, which
-- are third-party code; the options of Open, which only replace the clock; and what package flag
-- prints of arguments that it refuses.
pub mod Base
pub mod Go
pub mod Store
pub mod Server
pub mod Config
pub mod Command
pub mod Tests
