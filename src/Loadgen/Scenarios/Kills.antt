-- ===== src/Loadgen/Scenarios/Kills.antt =====
-- internal/loadgen/scenarios.go: the scripts of `runWorkerKill` and `runCoordinatorKill`, up to the
-- checks of their results, with their deferred calls.
-- `Driver.Run` is here any function from what it calls each second, the loads, the seconds and the
-- state to the results and a later state, with whatever the goroutines that it starts have done.
pub mod Ends
use ratelimiter.Base.{ℕ, ◌*◌, String, List, Option, none, some}
use ratelimiter.Loadgen.Kube.Objects.{Kube, worker_name, worker_cpu_default}
use ratelimiter.Loadgen.Kube.Client.{Client, Result, ok, scale}
use ratelimiter.Loadgen.Kube.Lifecycle.{ensure_rate_limiter, restore_coordinator}
use ratelimiter.Loadgen.Scenarios.Hooks.{Fault, worker_kill_hook, coordinator_kill_hook}
use ratelimiter.Loadgen.Scenarios.Loads.{Load}
use ratelimiter.Loadgen.Scenarios.Scaling.{Measured, bind}

module _ (c : Client) (drive : (ℕ → Option Fault) → List Load → ℕ → c.State → Measured × c.State)
    (k : Kube) (loads : List Load) (secs : ℕ) where
  -- The warmup, and the measurement with a hook.
  unfoldable pub measure_kill : (ℕ → Option Fault) → c.State → Measured × c.State
  measure_kill hook s = drive hook loads secs (drive (λ _. none) loads 3 s).1

  -- `runWorkerKill`; the answer of the deferred call is not read.
  unfoldable pub run_worker_kill : (kill_at : ℕ) → c.State → Option (Result Measured × c.State)
  unfolding measure_kill worker_kill_hook
  run_worker_kill kill_at s = bind (ensure_rate_limiter c k 2 worker_cpu_default s) (λ _ s.
      let (rs, s') = measure_kill (worker_kill_hook kill_at) s in
      some (ok rs, (c.send (scale worker_name 2) s').1))

  -- The deferred call behind the results.
  abbrev pub deferred :
      Measured → Option (Result (Unit {0}) × c.State) → Option (Result Measured × c.State)
  deferred rs none = none
  deferred rs (some (_, s)) = some (ok rs, s)

  -- `runCoordinatorKill`
  unfoldable pub run_coordinator_kill :
      (kill_at restore_at : ℕ) → c.State → Option (Result Measured × c.State)
  unfolding measure_kill coordinator_kill_hook
  run_coordinator_kill kill_at restore_at s =
      bind (ensure_rate_limiter c k 2 worker_cpu_default s) (λ _ s.
        let (rs, s') = measure_kill (coordinator_kill_hook kill_at restore_at) s in
        deferred rs (restore_coordinator c s'))
