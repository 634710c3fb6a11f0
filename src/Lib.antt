-- ===== src/Lib.antt =====
-- A verification library of LogSieve, which takes in logs, drops what repeats, and sends the rest
-- to its outputs. An entry is accepted by a handler, waits in the buffer of
-- pkg/ingestion/buffer.go, and comes in a batch to the processor (pkg/processor/processor.go). For
-- each entry the processor asks the profiles (pkg/profiles) for a profile and its rules, gives the
-- entry to the deduplication engine (pkg/dedup), and hands what passes to the router
-- (pkg/output/router.go). The server (cmd/server) makes these parts of the configuration
-- (pkg/config) and shuts them down. API keys and a rate limit (pkg/auth) are there to guard
-- handlers; internal/queue is a blocking queue of its own.
--
-- Files and sources. Names are those of the source, in this library's spelling.
--   Prelude      shared lists, maps as association lists, the functions of Go's package strings,
--                signed numbers and the wrapping of an int64
--   Queue        internal/queue/queue.go; Order, Close and Timeout state its properties
--   Ingestion    Entry: LogEntry of pkg/ingestion/handler.go, with its label map in a store of
--                maps, as entries share maps; Handler: HandleIngest of the same file; Parser:
--                parser.go; Buffer: buffer.go, with its two channels as lists, and its steps under
--                any schedule (Conservation, Closing); Disk: disk_buffer.go, with the directory as
--                a list of files, and its steps under any schedule (Conservation, Eviction)
--   Dedup        Drain: pkg/dedup/drain3.go, its prefix tree in Drain/Tree, its reports in Drain/Listing;
--                Fingerprint: fingerprint.go, with the abstract cache in Fingerprint/Refinement; Context:
--                context.go; Engine: engine.go
--   Profiles     Detector: pkg/profiles/detector.go; Rules: parser.go; Manager: manager.go, with
--                NewManager, ClearCache and the statistics in Manager/Creation, and the loading of
--                profiles and ParseProfile in Manager/Loading
--   Processor    processEntry and processBatch of pkg/processor/processor.go; Setup: NewProcessor
--                from the configuration, with NewBufferer, and GetStats; Rates: what processBatch
--                reports of each profile; Sending: processBatch with its Route; Lifecycle: Start, Stop
--                and processingLoop
--   Auth         ApiKey: pkg/auth/middleware.go; RateLimit: pkg/auth/ratelimit.go
--   Output       Breaker, Retry, Router: parts of pkg/output/router.go, with Route, Close and Stats in
--                Router/Routing; S3: s3.go; Loki: loki.go; Elasticsearch: elasticsearch.go; Stdout:
--                stdout.go
--   Config       pkg/config/config.go, and validateConfig of pkg/config/loader.go, with Load and
--                setDefaults in Config/Loading
--   Server       cmd/server/main.go: runServer up to Start, setupLogging and setupRouter; Shutdown:
--                runServer from Start to its return, as a step relation over the states of its
--                goroutines, with the states that a run reaches
--   Cli          cmd/logsieve/main.go: the texts, the choice of rules and the counts of learn and
--                audit; Commands: these commands from their flags on; Capture: capture, with its
--                goroutines as a step relation
-- State is passed explicitly: an operation takes the state of its struct and returns the new one.
-- Code that runs in several goroutines is cut into its critical sections and channel operations,
-- each a step; a schedule is a list of steps. A call that waits is a blocked result.
--
-- Numbers. Counts, times and durations are natural numbers, times in nanoseconds, read from the
-- clock as arguments; a configured value of 0 stands for 0 and below, but for the timeouts and the
-- size of the buffer, which are signed. The time of an entry is a signed number of nanoseconds, and the products that read it from digits wrap in an int64.
-- Similarities and rates are exact fractions, and the refill of a bucket is computed exactly, where
-- the source rounds floating point numbers; counters do not overflow. Texts are read as ASCII where
-- white space and the case of letters matter. The only fuel is that of the decimal digits of a
-- number n, which is n + 1, more than its digits.
--
-- Parameters. The SHA-256 fingerprint of a message, package regexp (compiling, matching,
-- replacing), the text of a rate, Base64, hexadecimal digits and Ed25519, encoding/json, YAML and
-- bufio.Scanner, reading a float, a duration and a date by a layout, the calendar of package time,
-- strconv.Quote and the sorting of package sort, the answers of os.Create and os.Remove, reading a
-- directory or a file, package viper, the log levels of zerolog, the programs that are there and
-- start, PutObject and the HTTP exchanges, what the adapters' constructors answer, the largest channel
-- that the platform allows, whether gin panics when it registers routes, and which Sends
-- succeed with the clock after each. Maps of Go are ranged over in the order of the association list.
--
-- Not modelled. Logging, and the metrics but for the rates of a batch; the parsing of flags and the
-- texts that commands print; WriteExample and PrintTree, which write a fixed text and a picture of the
-- tree; gin's dispatch of requests to the routes; the server with a disk buffer after Start, where
-- Shutdown has the memory buffer; the single goroutines of Route; and the steps inside a round of the
-- disk buffer's reader, in which the writer could evict the file that is read.
pub mod Auth
pub mod Cli
pub mod Config
pub mod Dedup
pub mod Ingestion
pub mod Output
pub mod Prelude
pub mod Processor
pub mod Profiles
pub mod Queue
pub mod Server
