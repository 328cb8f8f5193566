-- ===== src/Lib.antt =====
-- Leetsheet: a Go collection of small system designs (system-design/) and exercises (pkg/), modelled
-- part by part, with the theorems that make each part correct.
--
-- The parts and their files:
--   * Breaker (system-design/circuit-breaker/breaker.go): the circuit breaker. `execute` is Execute by
--     one caller, composed of `before_call`, the call and `after_call`, as in the code. Its window of
--     outcomes (window.go) is Breaker/Window, a ring buffer. Breaker/Calls states what a call does as a
--     machine on lists of outcomes; Breaker/Machine follows the callbacks; Breaker/Concurrent lets any
--     number of callers interleave, since the mutex is held in beforeCall and afterCall only.
--   * JobQueue (system-design/job-queue/queue.go): jobs behind pointers, the heap of pending jobs
--     (JobQueue/Heap, after container/heap), the list of scheduled jobs (JobQueue/Schedule) and the
--     dead-letter queue. JobQueue/Dispatch is dispatcher.go and scheduler.go, JobQueue/Backoff its
--     retry delay. JobQueue/Life puts producers, scheduler and workers together as a step relation,
--     JobQueue/Attempts counts the calls of handlers in it, JobQueue/Workers gives each worker its
--     place in the loop of dequeue, with the signal that wakes a parked one and the moment between the
--     promotion of jobs and its signal (JobQueue/Workers/Held follows the jobs that workers hold), and
--     JobQueue/Dispatch/Drain follows a worker on a closed queue.
--   * Limiters (pkg/rate_limiter.go): token bucket, fixed window, sliding window.
--   * Gateway (system-design/api-gateway): Http (contexts, responses and error texts of gateway.go),
--     Tenants (tenant.go), Policy (authz.go), Credentials (authn.go), Quota (rate_limiter.go), Metrics
--     (observability.go), and Chain, the middlewares of all of these and Build and Handler.
--   * PubSub (system-design/pub-sub/pubsub.go): the broker, with channels as buffers; PubSub/Valid its
--     invariant, PubSub/Deliver what a publication does, also after its subscribers have changed,
--     PubSub/Close the end, and PubSub/Life calls one after another.
--   * WorkerPool (pkg/worker_pool.go): the pool between its two channels, with its main program, as a
--     step relation, with its invariant (WorkerPool/Invariant), its measure, and its end (WorkerPool/Finish).
--   * Newspaper (newspaper_formatter.go): words wrapped into lines (Newspaper/Wrap), lines centred on a
--     page (Newspaper/Page), and when that panics (Newspaper/Fits).
--   * Puzzles: the other exercises of pkg/. Linked (linked_list.go) and Sum (add_two_numbers.go) work on
--     lists of values; Pairs (two_sum.go), Segments (subarray_sum_k.go), Longest
--     (length_of_longest_substring.go), Patience (min_deletions_sorted.go), Reverse (reverse_array.go and
--     reverse_mid.go), Predictions (prediction_diff.go), Numbers (binary_gap.go, reverse_int.go,
--     stepwise_structure.go, fee_waiver.go, case_diff.go, zigzag.go); Demos the tests of their Run
--     functions and the switch of cmd/main.go.
--
-- How the code is rendered: a struct is a record, and a method is a function from the record to the
-- record and its results. A map is an association list (Prelude/Maps). A pointer to a job is a number
-- and the memory a function. Each reading of the clock is an argument, in nanoseconds unless said
-- otherwise. What can panic returns an option. An int is an integer (Prelude/Int) where its sign
-- matters, and a natural number where every caller passes one that is not negative; the counters are
-- lengths of lists and do not come near 2^63. The delay of backoff, the squares of the worker pool and the
-- sums of TwoSum and SubarraySum wrap around at 64 bits (Prelude/Wrap); the other sums of the exercises
-- are unbounded. float64 is an interface (Prelude/Float) with nothing assumed of it.
--
-- Fuel: the loops of the heap and the binary searches run on the length of the slice, since each round
-- narrows the range of indices; the reversals too, whose pointers meet; the digits of itoa, of Reverse
-- and of BinaryGap on the size of the number, which each round divides; the last carry of AddNumbers on
-- the carry. The worker loop takes its number of rounds as an argument.
--
-- Parameters: HMAC, SHA-256, base64 and JSON (the record `Codec`, and the map that json.Unmarshal fills
-- in Predictions), strconv.Quote, the conversion of large floats in backoff (exact below 2^63) and the
-- product with 0.99 in P99, the upstream handler, job handlers, the called function.
--
-- Not modelled: goroutines and channels as such (their effects are steps and flags), logging,
-- printing, Metrics.String of the breaker, panics of called functions, the flag and the help text
-- of the command line. Pointers to -1 in the reversals are 0, which their loops do not tell apart.
--
pub mod Prelude
pub mod Breaker
pub mod JobQueue
pub mod Limiters
pub mod Gateway
pub mod PubSub
pub mod Puzzles
pub mod WorkerPool
pub mod Newspaper
