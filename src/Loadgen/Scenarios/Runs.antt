-- ===== src/Loadgen/Scenarios/Runs.antt =====
-- internal/loadgen/scenarios.go: `Run` of each scenario, its script with the checks of what it measured.
-- The parameters are those of the scripts. `parse_float` gives rates, which are not negative: the
-- model is that of the runs in which no override is negative, infinite or NaN. A negative one can
-- panic in more places, as where a window of buckets is cut out from a negative second on.
-- A scenario gives no checks where the source would panic.
pub mod Covered
pub mod Ends
use ratelimiter.Base.{
  ℕ, ◌*◌, ◌/◌, ◌<◌, String, str_eq, List, [], ◌∷◌, Option, none, some, Bool, if◌then◌else◌,
}
use ratelimiter.Config.{Config}
use ratelimiter.Loadgen.Kube.Objects.{Kube}
use ratelimiter.Loadgen.Kube.Client.{Client, Error, other, Result, ok, err}
use ratelimiter.Loadgen.Rates.{Rate}
use ratelimiter.Loadgen.Report.{StatsResponse}
use ratelimiter.Loadgen.Scenarios.{ov}
use ratelimiter.Loadgen.Scenarios.Checks.{
  Checked, baseline_checks, hot_tenant_checks, scaling_checks, worker_kill_checks,
  coordinator_kill_checks,
}
use ratelimiter.Loadgen.Scenarios.Hooks.{Fault}
use ratelimiter.Loadgen.Scenarios.Loads.{
  Load, baseline_loads, hot_tenant_loads, steady_loads, offered_of,
}
use ratelimiter.Loadgen.Scenarios.Plain.{run_baseline, run_hot_tenant}
use ratelimiter.Loadgen.Scenarios.Scaling.{Measured, bind, scaling_load, run_scaling}
use ratelimiter.Loadgen.Scenarios.Kills.{run_worker_kill, run_coordinator_kill}

-- `int(f)` of a rate.
abbrev pub whole : Rate → ℕ
whole (a, b) = a / b

-- The checks of the three phases.
unfoldable pub checks_of_phases : Config → List Measured → Rate → ℕ → Option Checked
unfolding scaling_checks
checks_of_phases cfg (one ∷ two ∷ four ∷ []) offered secs =
    scaling_checks cfg one two four offered secs
checks_of_phases cfg _ offered secs = none

module _ (c : Client) (drive : (ℕ → Option Fault) → List Load → ℕ → c.State → Measured × c.State)
    (stats : c.State → StatsResponse × c.State) (k : Kube) (url : String) (get : String → String)
    (parse_float : String → Option Rate) (cfg : Config) where
  -- `int(env.ov(key, def))`
  abbrev pub number : String → ℕ → ℕ
  number key def = whole (ov parse_float (get key) (def, 1))

  -- A run without a hook.
  abbrev pub plainly : List Load → ℕ → c.State → Measured × c.State
  plainly = drive (λ sec. none)

  -- How a scenario ends: with an error, or with its checks.
  abbrev pub Verdict : Type 0
  Verdict = Option (Result (Option Checked) × c.State)

  unfoldable pub baseline_run : c.State → Verdict
  unfolding run_baseline baseline_checks baseline_loads ov
  baseline_run s =
      let secs : ℕ = number "duration" 30 in
      bind (run_baseline c plainly stats k (baseline_loads get parse_float cfg) secs s)
        (λ x s. some (ok (baseline_checks cfg x.results secs (some x.before) (some x.after)), s))

  -- The cap of the 99th percentile is in milliseconds, the latencies in microseconds.
  unfoldable pub hot_tenant_run : c.State → Verdict
  unfolding run_hot_tenant hot_tenant_checks hot_tenant_loads ov
  hot_tenant_run s =
      let secs : ℕ = number "duration" 30 in
      let (ms, per) : Rate = ov parse_float (get "p99ms") (50, 1) in
      bind (run_hot_tenant c plainly stats k (hot_tenant_loads get parse_float cfg) secs s)
        (λ rs s. some (ok (hot_tenant_checks cfg rs secs (1000 * ms / per)), s))

  unfoldable pub scaling_run : c.State → Verdict
  unfolding run_scaling checks_of_phases ov
  scaling_run s =
      let offered : Rate = ov parse_float (get "rate") (2500, 1) in
      let secs : ℕ = number "duration" 25 in
      let load : List Load = scaling_load offered (number "concurrency" 200) in
      bind (run_scaling c plainly k url load secs s)
        (λ phases s. some (ok (checks_of_phases cfg phases offered secs), s))

  unfoldable pub worker_kill_run : c.State → Verdict
  unfolding run_worker_kill worker_kill_checks steady_loads ov
  worker_kill_run s =
      let kill_at : ℕ = number "kill_at" 15 in
      let secs : ℕ = number "duration" 45 in
      bind (run_worker_kill c drive k (steady_loads get parse_float cfg) secs kill_at s)
        (λ rs s. some (ok (some (worker_kill_checks cfg rs secs kill_at)), s))

  unfoldable pub coordinator_kill_run : c.State → Verdict
  unfolding run_coordinator_kill coordinator_kill_checks steady_loads offered_of ov
  coordinator_kill_run s =
      let kill_at : ℕ = number "kill_at" 10 in
      let restore_at : ℕ = number "restore_at" 25 in
      let secs : ℕ = number "duration" 60 in
      let loads : List Load = steady_loads get parse_float cfg in
      bind (run_coordinator_kill c drive k loads secs kill_at restore_at s) (λ rs s.
        some (ok (coordinator_kill_checks cfg rs secs kill_at restore_at (offered_of loads)), s))

  -- `sc.Run`, for a scenario of the registry.
  unfoldable pub run_scenario : String → c.State → Verdict
  unfolding baseline_run hot_tenant_run scaling_run worker_kill_run coordinator_kill_run
  run_scenario name s =
      if str_eq name "baseline"
      then baseline_run s
      else if str_eq name "hot-tenant"
      then hot_tenant_run s
      else if str_eq name "scaling"
      then scaling_run s
      else if str_eq name "worker-kill"
      then worker_kill_run s
      else if str_eq name "coordinator-kill"
      then coordinator_kill_run s
      else some (err (other "no such scenario"), s)
