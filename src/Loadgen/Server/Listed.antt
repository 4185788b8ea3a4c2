-- ===== src/Loadgen/Server/Listed.antt =====
-- internal/loadgen/server.go, `handleScenarios`, with the descriptions of the registry in
-- internal/loadgen/scenarios.go. The encoding as JSON is outside the repository.
use ratelimiter.Base.{◌≡◌, refl, String, List, [], ◌∷◌, ◌++◌, some, true, false, All}
use ratelimiter.Loadgen.Kube.Objects.{worker_cpu_scaling}
use ratelimiter.Loadgen.Report.{concat}
use ratelimiter.Loadgen.Scenarios.{find_scenario, scenarios}
use ratelimiter.Loadgen.Server.{RunRequest, authorized, runs, start_run}

-- The registry as `handleScenarios` lists it: the names with their descriptions.
unfoldable pub described : List (String × String)
described =
    (
      "baseline",
      concat (
          "Normal operation across 2 concurrent workers: tenant-a offers 2x its limit "
          ∷ "in tokens as a mixed-cost workload (cheap cost-1 requests plus expensive cost-5 ones) "
          ∷ "and is admitted at exactly its token limit (excess gets 429); tenant-b sends 0.5x its "
          ∷ "limit and is fully admitted. Also verifies workers lease budget in batches instead of "
          ∷ "consulting the coordinator per request." ∷ []),
    )
    ∷ (
      "hot-tenant",
      concat (
          "Tenant isolation: tenant-a floods at 20x its limit while tenant-b and "
          ∷ "tenant-c send below their limits. The quiet tenants keep full admission, low p99 "
          ∷ "latency, and no errors; the hot tenant still gets its configured share." ∷ []),
    )
    ∷ (
      "scaling",
      concat (
          "Horizontal scaling: the same high offered load is driven at 1, 2, and 4 "
          ∷ "worker replicas (workers are CPU-capped at " ∷ worker_cpu_scaling
          ∷ " to make saturation "
          ∷ "cheap to reach). Max decision throughput must grow with the replica count." ∷ []),
    )
    ∷ (
      "worker-kill",
      concat (
          "Fault tolerance, worker: mid-run one of 2 worker pods is killed abruptly "
          ∷ "with no replacement. Expect a brief error blip while the Service converges, then "
          ∷ "steady state on the surviving worker; stranded leased budget is bounded and "
          ∷ "recovered within one lease duration." ∷ []),
    )
    ∷ (
      "coordinator-kill",
      concat (
          "Fault tolerance, coordinator: mid-run the coordinator is killed. Workers "
          ∷ "keep admitting from leased budget for a short window, then fail closed (clean 429s, "
          ∷ "not errors). When the coordinator returns, admission recovers to the configured "
          ∷ "limits." ∷ []),
    )
    ∷ []

-- The loop of `handleScenarios`, and what it encodes.
unfoldable pub append_items :
    List (String × String) → List (String × String) → List (String × String)
append_items out [] = out
append_items out ((name, text) ∷ items) = append_items (out ++ (name, text) ∷ []) items

unfoldable pub handle_scenarios : List (String × String)
unfolding append_items described
handle_scenarios = append_items [] described

-- What `handleRun` does with a name on a free server.
abbrev pub CanRun : String → Type 0
CanRun name =
    (r : RunRequest)
    → authorized r ≡ true
    → r.scenario ≡ name
    → start_run false r ≡ (true, runs name)

found-CanRun : (name : String) → find_scenario name scenarios ≡ some name → CanRun name
unfolding start_run
found-CanRun name found r auth same = rw (auth, same, found) refl

-- Every scenario that `handleScenarios` lists is one that an authorized request runs by its name when
-- no other runs.
pub listed-CanRun : All (λ (name, text). CanRun name) handle_scenarios
unfolding handle_scenarios append_items described find_scenario
listed-CanRun = (
  found-CanRun _ refl,
  (found-CanRun _ refl, (found-CanRun _ refl, (found-CanRun _ refl, (found-CanRun _ refl, tt)))),
)
