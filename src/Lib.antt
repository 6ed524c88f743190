-- ===== src/Lib.antt =====
-- svc-downloader: a download manager with a queue, an HTTP API and a BadgerDB store.
--
-- How the parts interact. The HTTP API (internal/api) calls the services (internal/service), which
-- keep downloads and queues in the repository (internal/repository) and publish events
-- (internal/events). A worker loop starts queued downloads; a runner plans the segments of a download
-- (internal/planner), reserves tokens for the bytes (internal/ratelimit), fetches them
-- (internal/transport) and merges the parts into a file (internal/filestore). internal/server puts the
-- parts together, behind the API key check of internal/auth.
--
-- Files.
--   Common      booleans, lists, byte strings, signed integers and maps
--   Models      internal/models: the records and the constants
--   Errors      errors and results; a context is live or cancelled for the whole of a call
--   Paths       the parts of Go's path/filepath that the file store calls
--   Disk        the parts of Go's os that the file store calls
--   FileStore   internal/filestore/filestore.go: Parts, Target, Merge and Checksum; Order, Unique,
--               Copied, Merged, Listed and Kept hold what is proved of them
--   Transport   internal/transport/httpclient.go: Headers, Client and Fetch; what GetRange returns is
--               in Answers
--   Planner     internal/planner/planner.go, Plan
--   RateLimit   internal/ratelimit/ratelimiter.go: SetLimit and Reserve
--   Auth        internal/auth/auth.go: Middleware
--   Store       BadgerDB as an interface, with its laws, and the transactions of repository.go
--   Repository  internal/repository/repository.go: Keys (keys and index keys), Downloads (create,
--               update, get, delete), Listing (list and count), Segments, Queues, Bulk (the methods
--               on many downloads); Indexed, Upkeep, Invariant, Deletion, Reads and Frame hold
--               what is proved of the indexes and of reads after writes
--   Service     internal/service/download.go, queue.go and workers.go: the download service, the
--               queue service and the tick of the worker loop; Calls puts them together in sequences, and
--               Runs and Orphans hold what is proved of the registration of runs
--   Runner      internal/service/runner.go: the preparation of a run, Segments (a round of the loop of
--               one segment), Loop (downloadSegment), Pool (the goroutines of a run and the monitor) and
--               Finish (the merge and Run itself); Rounds, Endless and Resumed hold what is proved of
--               one segment, Settings and Verified what is proved of any run, and Files, Throttle,
--               Served, Filled, Fits, Opened, Fitting, Whole, Fair, Progress, Collected, Begun, Ready, Ended and
--               Delivered what a run against a server with the content comes to
--   Server      internal/server/server.go: the default queue, the global limit and the pause of
--               running downloads at shutdown; Guard (the API key check in front of the routes)
--   Events      internal/events/publisher.go: the publisher and its subscribers
--   Api         internal/api/routes: the handlers that read downloads; Routes (all handlers of routes.go and
--               queues.go); Laws
--   Cli         internal/cli/options.go and internal/config/config.go: Options and Laws
--   Fixtures    sample data for the tests
--
-- Conventions. Strings are lists of bytes; letters outside ASCII are left alone by the case mapping.
-- A time is a number of nanoseconds, with 0 for Go's zero time, and a method of the repository reads
-- the clock once. Integers are unbounded ℤ: no 64-bit operation of the modelled code overflows on the
-- sizes that files and rates have. A value in the store is what json.Marshal wrote, typed, so that a
-- read gives back what was written. Badger is a record of operations and laws, which `Store.Memory`
-- fulfils with an association list; its I/O errors are not modelled. sort.Slice is an insertion sort,
-- which is stable where Go's need not be. The two conversions through float64 of the rate limiter are parameters. A call of a service is one
-- step: the interleavings of calls that run at the same time are not modelled, but a run of a download
-- starts in one step and ends in another. What a write batch of BadgerDB does after a flush, and whether
-- a transaction has room for so many writes, are parameters: a full one is committed before the batch
-- is flushed. The loops that take fuel are the width of a decimal number, for which the number itself
-- is enough, the chunks of a bulk method, for which the number of downloads is, the numbers of a unique
-- file name, for which three more than the number of files and directories is if the system denies none
-- of the candidates, and the rounds of a segment, for which the retries are if the server is honest.
--
-- The system behind a run. A path is a list of names and the disk a list of files, at some paths of
-- which the system may deny an operation; a write to an open file does not fail. The network is any
-- function of the requests that were sent before, and each answer sets the clock. A run is driven by a
-- schedule: a turn lets one goroutine of a segment make a round of its loop, or lets the monitor take
-- one message. Hashes, floating-point delays, the progress ratio and random jitter are parameters.
--
-- The monitor takes its messages before the merge: those that a schedule leaves, whose progress the program
-- may still report while it merges, stay where they are. The bulk methods on the
-- downloads of a queue are not among the calls of `Service.Calls`: they take index keys away and write
-- downloads in separate commits.
--
-- Not modelled: the reading of requests by huma, the streaming of events, the process control of
-- internal/cli, and the opening of the database.
pub mod Common
pub mod Models
pub mod Errors
pub mod Disk
pub mod FileStore
pub mod Transport
pub mod Planner
pub mod RateLimit
pub mod Auth
pub mod Store
pub mod Repository
pub mod Service
pub mod Runner
pub mod Server
pub mod Events
pub mod Api
pub mod Cli
pub mod Paths
pub mod Fixtures
