-- ===== src/Loadgen/Scenarios/Examples.antt =====
-- The theorems on the scripts and the loads of internal/loadgen/scenarios.go, at the simulated cluster.
use ratelimiter.Base.{
  some, true, false, ℕ, ◌+◌, ◌*◌, ◌^◌, ◌≡◌, refl, String, List, [], ◌∷◌, Option, none, arith,
}
use ratelimiter.Base.Int.{pos}
use ratelimiter.Config.{Config}
use ratelimiter.Loadgen.Driver.{no_result}
use ratelimiter.Loadgen.Driver.Seconds.{on_seconds}
use ratelimiter.Loadgen.Kube.Objects.{Kube, worker_name, coordinator_name}
use ratelimiter.Loadgen.Kube.Client.{scale}
use ratelimiter.Loadgen.Kube.Poll.{second}
use ratelimiter.Loadgen.Kube.Lifecycle.{kill_one_worker, kill_coordinator}
use ratelimiter.Loadgen.Kube.Simulated.{
  Sim, sim_send, simulated, simulated-IsClocked, simulated-IsStoring,
}
use ratelimiter.Loadgen.Rates.{Rate}
use ratelimiter.Loadgen.Report.{StatsResponse, stats_response}
use ratelimiter.Loadgen.Scenarios.Checks.{limit_of}
use ratelimiter.Loadgen.Scenarios.Hooks.{
  Fault, worker_kill, coordinator_kill, restore, worker_kill_hook, coordinator_kill_hook, started,
  hooks_start,
}
use ratelimiter.Loadgen.Scenarios.Loads.{Load, baseline_loads, hot_tenant_loads, steady_loads}
use ratelimiter.Loadgen.Scenarios.Loads.Advertised.{IsShare, tokens_for, loads_offer}
use ratelimiter.Loadgen.Scenarios.Scaling.{Measured, scaling_load}
use ratelimiter.Loadgen.Scenarios.Scaling.Ends.{Gives, Scaling}
use ratelimiter.Loadgen.Scenarios.Kills.{run_worker_kill, run_coordinator_kill}
use ratelimiter.Loadgen.Scenarios.Kills.Ends.{Killed, IsRestored, kills_end}

abbrev seconds : List ℕ
seconds = 1_000_000_000 ∷ 2_000_000_000 ∷ 3_000_000_100 ∷ 4_000_000_000 ∷ []

hooks_start_example :
    (started (on_seconds (worker_kill_hook 2) (5 * 10 ^ 9) 1 seconds) ≡ worker_kill ∷ [])
    × (started (on_seconds (coordinator_kill_hook 2 4) (5 * 10 ^ 9) 1 seconds)
        ≡ coordinator_kill ∷ restore ∷ [])
hooks_start_example =
    hooks_start 2 4 5 seconds
      (
        omega arith,
        omega arith,
        (omega arith, omega arith, (omega arith, omega arith, (omega arith, omega arith, tt))),
      )
      (omega arith) (omega arith)

abbrev cfg : Config
cfg = record {
  lease = record { size = pos 100; duration_ms = pos 1_000 };
  tenants = ("tenant-a", pos 200_000) ∷ ("tenant-b", pos 100_000) ∷ [];
}

abbrev unset : String → String
unset key = ""

abbrev no_parse : String → Option Rate
no_parse text = none

loads_offer_example :
    let baseline = baseline_loads unset no_parse cfg in
    let hot = hot_tenant_loads unset no_parse cfg in
    let steady = steady_loads unset no_parse cfg in
    IsShare 200 (limit_of cfg "tenant-a") (tokens_for "tenant-a" baseline)
    × IsShare 50 (limit_of cfg "tenant-b") (tokens_for "tenant-b" baseline)
    × IsShare 2000 (limit_of cfg "tenant-a") (tokens_for "tenant-a" hot)
    × IsShare 60 (limit_of cfg "tenant-b") (tokens_for "tenant-b" hot)
    × IsShare 60 (limit_of cfg "tenant-c") (tokens_for "tenant-c" hot)
    × IsShare 80 (limit_of cfg "tenant-a") (tokens_for "tenant-a" steady)
    × IsShare 80 (limit_of cfg "tenant-b") (tokens_for "tenant-b" steady)
    × IsShare 80 (limit_of cfg "tenant-c") (tokens_for "tenant-c" steady)
loads_offer_example = loads_offer unset no_parse cfg (λ key. refl)

abbrev kube : Kube
kube = record { ns = "ratelimiter"; image = "ratelim:1" }

abbrev fresh : Sim
fresh = record {
  clock = 5;
  deployments = [];
  pods =
      record { name = "w-a"; deleting = false; running = true }
      ∷ record { name = "w-b"; deleting = false; running = true }
      ∷ [];
}

-- What a goroutine does at the simulated cluster.
act : Fault → Sim → Sim
act worker_kill s = (kill_one_worker simulated ([], s)).1.1
act coordinator_kill s = (kill_coordinator simulated ([], s)).1.1
act restore s = (sim_send (scale coordinator_name 1) s).1

act_all : List Fault → Sim → Sim
act_all [] s = s
act_all (a ∷ rest) s = act_all rest (act a s)

-- A driver that measures nothing, in which the goroutines of four seconds are run.
sim_drive : (ℕ → Option Fault) → List Load → ℕ → Sim → Measured × Sim
sim_drive hook loads secs s = (
  ("tenant-hi", no_result) ∷ [],
  act_all (started (on_seconds hook (secs * 10 ^ 9) 1 seconds))
      (record s { clock = s.clock + secs * second }),
)

abbrev url : String
url = "http://ratelim-workers:8080"

abbrev hi : List Load
hi = scaling_load (2500, 1) 200

kills_end_example :
    Gives
      (Killed simulated sim_drive kube hi 45 fresh
        (worker_kill_hook 2)
        (λ after last. (sim_send (scale worker_name 2) after).1 ≡ last))
      (run_worker_kill simulated sim_drive kube hi 45 2 fresh)
    × Gives
        (Killed simulated sim_drive kube hi 45 fresh
          (coordinator_kill_hook 2 4)
          (IsRestored simulated))
        (run_coordinator_kill simulated sim_drive kube hi 45 2 4 fresh)
kills_end_example =
    kills_end simulated sim_drive kube hi 45 fresh simulated-IsClocked simulated-IsStoring 2 4

abbrev counted : Sim → StatsResponse × Sim
counted s = (stats_response 200 (some (record { started_ms = 7; tenants = [] })), s)
