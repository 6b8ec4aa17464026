-- ===== src/Lib.antt =====
-- swarm-compute: a center that cuts a job into tasks, has workers execute them, and puts their
-- outputs together. The model is of the Go code of the center and of the workers.
--
-- A job runs like this: jobSubmitHandler (center/server/main.go) has CreateJob check a request and
-- store a pending job (center/server/scheduler.go), and publishes its id; a goroutine of the runner takes
-- the id from the queue (center/server/runner.go and mq.go), and ExecuteJob pings the workers, has the
-- job's splitter cut the input for the workers that answered, sends each part to a worker, with further
-- attempts on failure, and has the job's aggregator combine the outputs. A worker's handler of /execute
-- (site/server/main.go) runs the executor of the task's type (site/server/executor.go). A handler can
-- cancel a job, and a job's context ends after its timeout. The handlers stand behind a rate limiter
-- (center/server/middleware.go), and the jobs are kept in a store with a file (center/server/store.go).
--
-- Files:
-- - Base and its children: what the components share. Errors has the result of a Go function (a value,
--   an error, or a panic), Value the decoded JSON values, Int the whole numbers and `int`, which wraps
--   around at 64 bits, Float64 the operations on float64 and the laws that the theorems take, Text
--   lines and bytes, Sort the order and sort.Float64s, Map the association lists, Lists and Tests small
--   helpers.
-- - Splitter (center/server/splitter.go): the registry; Slices is splitSlice and splitSliceGeneric,
--   Lines splitWordCount and splitGrep, Rows splitSort and splitMatrixMul, Samples splitPiEstimate,
--   Ranges splitPrimeCount, Charset splitHashCrack. SliceLaws, SampleLaws, RangeLaws and CharsetLaws
--   are about them.
-- - Aggregator (center/server/aggregator.go): the registry; Merge is mergeTwo, mergeKSorted and
--   aggregateSort, Counts aggregateWordCount, Totals aggregatePiEstimate, aggregatePrimeCount and
--   aggregateHashCrack, Matches aggregateGrep and aggregateMatrixMul. MergeLaws is about Merge.
-- - Executor (site/server/executor.go and types_task.go): runTask; its children are the executors of
--   the files exec_*.go. GoLibrary has what they call of Go's library. PrimeLaws is about isPrime,
--   PrimeCounts about the counts of executePrimeCount.
-- - Scheduler (center/server/scheduler.go): Types has the records of types.go, types_job.go and
--   store.go, Create is CreateJob and validateInput, Retry callWorker and executeTaskWithRetry, Execute
--   ExecuteJob, failJob and getHealthyWorkers, with processJob of runner.go. Lifecycle is ExecuteJob
--   again, as a step relation: a step for each place that writes or tests the status, with a cancel or
--   the end of the context between any two of them. CreateLaws, RetrySteps, RetryLaws,
--   RetryWorker, ExecuteLaws, ExecuteEnds, LifecycleLaws and Progress are about them.
-- - Limiter (center/server/middleware.go): the token buckets, Allow and cleanup. Laws and Steady are
--   about all buckets of a limiter, Clients about one client's, Burst about requests at one instant, and
--   Cleanup about what a cleanup changes.
-- - Store (center/server/store.go): Stats is ComputeStats, Disk saveLocked, SaveToDisk, LoadFromDisk and
--   NewStore. StatsLaws and DiskLaws are about them.
-- - Center (center/server/main.go): Init is initBuiltinTaskTypes and initWorkers, Http the requests and
--   responses, Handlers the handlers, Routes the guards of middleware.go and main.go and the routes, Boot
--   the start and the shutdown. InitLaws, SubmitLaws, JobLaws, RouteLaws, BurstLaws and BootLaws are
--   about them.
-- - Queue: Connect is ConnectMQ and Close (center/server/mq.go), Runner the consumers of
--   center/server/runner.go as a step relation. ConnectLaws and RunnerLaws are about them.
-- - Executor/Server (site/server/main.go): the handlers of a worker.
-- - Pipeline: a whole job without failures, split, execute and aggregate. Sort, Grep, Matrix, Prime and Pi
--   are about the jobs of one type, Cluster about a job with workers that answer, and System about a job
--   from its submission to the request for its result.
-- - Tests: a number type for tests, the model at small inputs, and each theorem at a concrete input.
--
-- How the code is read:
-- - float64 is any type with the operations of Float64; what a theorem needs of them is in FloatLaws
--   and FloatArith. Values of Go's types that reach a worker or the center go through JSON, where a number is a
--   float64: the executors' outputs are built of such numbers.
-- - The network, the clock, the ids and the context are parameters: Attempts says how each call of a
--   worker ends and when the context is over, Surroundings how the pings end, which case the `select`
--   takes, and when a cancel comes while the tasks run. Runtime has the regular expressions, MD5, the
--   random numbers and the character classes.
-- - encoding/json, RabbitMQ, net/http and the file system are parameters: Decoder and Codec say what
--   decoding and encoding give, Transport what becomes of a worker's response, with the outputs that
--   cannot be encoded, Calls how the calls of the AMQP library end, SaveEnd how writing and renaming a
--   file end, Moment what a request finds.
--   A response of the center holds the value that is given to the encoder, whose error is dropped.
--   http.ServeMux chooses the route, so theorems are about the handler of each pattern.
-- - A handler is one step on the state that the handlers share; so are a save, a call of Allow and a
--   cleanup. A time of the rate limiter is a number of nanoseconds.
-- - A map is an association list whose first entry for a key counts; Go leaves the order of a map open,
--   and no theorem depends on it. A nil slice is the empty list.
-- - The tasks of a job run at the same time and share nothing but the list of workers, so Execute runs
--   them one after the other, each to its end. The saves of ExecuteJob and the logging are left out.
-- - Text is a string of characters; `len` of a string counts its bytes.
-- - `int(math.Sqrt(float64(n)))` is the square root rounded down, which it is for the numbers up to
--   2^52; above, the source may try one divisor more, which changes no answer of isPrime.
--
-- Fuel: chunks_from has the length of the slice, ranges_from and shares_from the number of workers,
-- merge_halves the number of arrays, trial the square root, and retry_loop the number of attempts,
-- dial_loop the 30 dials; each is at least the number of rounds of its loop.
--
-- Not modelled: withLogging and the logging, which change no answer; newID, whose ids are a parameter;
-- minMaxNorm (center/server/util.go), which the program does not call; a lost connection to RabbitMQ and
-- the messages that it gives back; the pages and the clients.
pub mod Base
pub mod Splitter
pub mod Aggregator
pub mod Executor
pub mod Scheduler
pub mod Pipeline
pub mod Limiter
pub mod Store
pub mod Center
pub mod Queue
pub mod Tests
