-- ===== src/Loadgen/Scenarios/Scaling.antt =====
-- internal/loadgen/scenarios.go: the script of `runScaling`, up to the checks of its results.
-- `Driver.Run`, whose steps Loadgen.Pacer has, is here any function from the loads, the seconds and
-- the state to the results and a later state. `ResetConns` changes no state of the model.
pub mod Ends
use ratelimiter.Base.{ℕ, ◌*◌, String, List, [], ◌∷◌, Option, none, some}
use ratelimiter.Loadgen.Driver.{TenantResult}
use ratelimiter.Loadgen.Kube.Objects.{Kube, worker_name, worker_cpu_scaling}
use ratelimiter.Loadgen.Kube.Client.{Client, Error, Result, ok, err, scale}
use ratelimiter.Loadgen.Kube.Poll.{second}
use ratelimiter.Loadgen.Kube.Lifecycle.{ensure_rate_limiter}
use ratelimiter.Loadgen.Kube.Reached.{worker_decisions, wait_all_workers_reachable}
use ratelimiter.Loadgen.Rates.{Rate}
use ratelimiter.Loadgen.Scenarios.Loads.{Load}

abbrev pub Measured : Type 0
Measured = List (String × TenantResult)

abbrev pub scaling_load : (offered : Rate) → (concurrency : ℕ) → List Load
scaling_load offered concurrency =
    record { tenant = "tenant-hi"; rate = offered; concurrency = concurrency; cost = 0 } ∷ []

-- `if err != nil { return nil, err }`, behind a call that may not return.
abbrev pub bind {ℓ κ} :
    {S : Type 0} {A : Type ℓ} {B : Type κ}
    → Option (Result A × S)
    → (A → S → Option (Result B × S))
    → Option (Result B × S)
bind none next = none
bind (some (ok a, s)) next = next a s
bind (some (err e, s)) next = some (err e, s)

module _ (c : Client) (drive : List Load → ℕ → c.State → Measured × c.State) (k : Kube)
    (url : String) (load : List Load) (secs : ℕ) where
  -- Warmup and measurement of a phase, with the counts of the workers before and after.
  unfoldable pub measure_phase : c.State → Measured × c.State
  measure_phase s =
      let warm = (drive load 3 s).1 in
      let before = (worker_decisions c warm).1 in
      let (rs, after) = drive load secs before in (rs, (worker_decisions c after).1)

  -- The body of the loop, with `n` workers.
  unfoldable pub run_phase : ℕ → c.State → Option (Result Measured × c.State)
  unfolding measure_phase
  run_phase n s = bind (ensure_rate_limiter c k n worker_cpu_scaling s) (λ _ s.
      bind (wait_all_workers_reachable c url (45 * second) s)
        (λ _ s. let (rs, s') = measure_phase s in some (ok rs, s')))

  unfoldable pub run_phases : List ℕ → c.State → Option (Result (List Measured) × c.State)
  unfolding run_phase
  run_phases [] s = some (ok [], s)
  run_phases (n ∷ ns) s =
      bind (run_phase n s) (λ rs s. bind (run_phases ns s) (λ rest s. some (ok (rs ∷ rest), s)))

  -- `runScaling`: its phases, and the default number of workers once they are over.
  unfoldable pub run_scaling : c.State → Option (Result (List Measured) × c.State)
  unfolding run_phases
  run_scaling s =
      bind (run_phases (1 ∷ 2 ∷ 4 ∷ []) s)
        (λ phases s. bind (some (c.send (scale worker_name 2) s)) (λ _ s. some (ok phases, s)))
