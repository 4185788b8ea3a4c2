-- ===== src/Lib.antt =====
-- A distributed rate limiter: a coordinator that owns one token bucket per tenant, workers that
-- lease tokens from it in batches and decide requests from what they hold, and a load generator that
-- drives and judges a cluster.
--
-- How the parts interact. A request for a tenant reaches a worker (`handleCheck`, then
-- `Limiter.Check`), which admits it if the tenant's pool holds its cost, answers 429 if not, and
-- 404 for a tenant that the coordinator does not know. A pool that runs low starts one renewal
-- (`renew`), which asks the coordinator (`handleLease`) for a lease; the bucket (`TakeUpTo`) grants
-- what it holds. The load generator paces requests, records the answers, and checks that no
-- tenant's admitted tokens exceed its rate times the time, its burst and a slack for leases.
--
-- Where the code is:
--   Bucket       internal/bucket/bucket.go: New, refillLocked, TakeUpTo, NextTokenIn
--   Config       internal/config/config.go: Load, LeaseDuration
--   Coordinator  internal/coordinator/coordinator.go: New, handleLease, handleStats
--   Worker.Pool  internal/worker/limiter.go: the critical sections of Check (`begin`, `resume`) and
--                of renew (`finish`), and shouldRenewLocked, on the pool of one tenant
--   Worker.Replica  the same file: the goroutines of one tenant on one worker (requests that wait,
--                renewals in flight, channels) around those sections
--   Worker.Limiter  the same file: the maps of pools and counters of all tenants, StatsSnapshot
--   Worker.Leaser, Worker.Server  internal/worker/server.go: the lease client from the response on,
--                handleCheck
--   Cluster      coordinator and workers together, for one tenant: requests, renewals, lost lease
--                calls, crashes and restarts in any order, as a step relation
--   System       coordinator and workers together, for all tenants: the handlers of both servers over
--                the limiters' maps (System.Nodes), as a step relation; System.View and
--                System.Refinement look at it from one tenant, System.Unknown from one that is not
--                configured
--   Loadgen.Driver, Loadgen.Pacer  internal/loadgen/driver.go: record, Percentile, ErrorCount,
--                WindowRate, the calls of Run each second (Driver.Seconds), and runTenant
--                with one as a step relation
--   Loadgen.Report  internal/loadgen/report.go: renderChecks, sumSeries, CoordStats from the
--                response on and the totals; Report.Chart is renderChart, Report.Table
--                is renderTable
--   Loadgen.Scenarios  internal/loadgen/scenarios.go: the registry, ov, progress, invariantCheck,
--                sumSeriesAt; Scenarios.Checks has the checks of each scenario over what it
--                measured, and Loads, Hooks, Plain, Scaling, Kills and Runs are the loads, what `onSecond`
--                starts, the scripts of the scenarios, and each script with its checks
--   Loadgen.Server  internal/loadgen/server.go: authorized, handleRun and its mutex; Server.Handler has
--                handleRun as a whole, with LoadConfig of internal/loadgen/kube.go;
--                Server.Listed is handleScenarios
--   Loadgen.Kube  internal/loadgen/kube.go: Objects (deployments, services, pods), Client (the
--                client of the cluster, abstract, with its laws), Poll (the waiting loops),
--                Lifecycle (apply, EnsureRateLimiter, the kills), Reached (WorkerDecisions and
--                WaitAllWorkersReachable), Simulated (a client that meets the laws)
--   Commands     cmd/ratelim/main.go, with the Run functions, the patterns of the handlers and NewKube
--   Loadgen.Rates  fractions of natural numbers, for the comparisons of the checks
--   Base         what they share: tests on numbers, lists, maps, decimals and sorting
--
-- State and operations. A struct is a record, a method a function from the state to the state and
-- its results, a critical section one such function, and goroutines are steps of a relation between
-- sections. A Go map is an association list, the time an argument.
--
-- Numbers. Times are nanoseconds on ℕ, the zero time is 0. A rate is a number of thousandths of a
-- token (or of a request) per second and a balance a number of units of 10^-12, so that a rate
-- times a time is a whole number of units: what the source computes in float64 is exact here, but
-- for the quota of runTenant, whose sums are rounded by any error up to a bound. The
-- watermark of a fifth of a grant is a division, and the jitter is its draw over 2^53. An `int` that
-- is checked by the code is a ℤ; a grant's numbers, which the coordinator makes, and counts are ℕ and
-- do not wrap. An address, a status or a name is itself.
--
-- The percentages and rates of the checks are exact fractions, over 0 as in float64. Overrides of a
-- scenario are not negative.
--
-- Fuel. The printing of a decimal has fuel for 20 digits, the most that 64 bits need. A waiting loop
-- of kube.go has fuel for its timeout over its interval and two rounds more, which is proved to be
-- enough when every round takes the interval; the loop that marks the axis of a chart has fuel for
-- its columns and two more. All other loops are structural.
--
-- Not modelled. The YAML decoder, net/http, encoding/json, client-go, retry.OnError and the clock are
-- outside the repository: what they hand over is an argument, or an operation of the abstract client
-- with its documented laws. NewDriver and ResetConns configure those packages; the details of the
-- checks and the rows of renderTable print floats: their texts are parameters.
-- Flags, files, credentials and ListenAndServe are parameters of the subcommands.
mod Base
pub mod Bucket
pub mod Config
pub mod Coordinator
pub mod Worker
pub mod Cluster
pub mod System
pub mod Loadgen
pub mod Commands
