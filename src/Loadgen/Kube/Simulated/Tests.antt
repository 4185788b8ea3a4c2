-- ===== src/Loadgen/Kube/Simulated/Tests.antt =====
-- The lifecycle at the simulated cluster.
use ratelimiter.Base.{
  ◌+◌, ◌*◌, ◌≡◌, refl, List, [], ◌∷◌, true, false, if◌then◌else◌, String, str_eq,
}
use ratelimiter.Loadgen.Kube.Objects.{Kube, Pod, worker_name, worker_cpu_default}
use ratelimiter.Loadgen.Kube.Client.{scale, mark_cheapest, force_delete}
use ratelimiter.Loadgen.Kube.Poll.{second, probe_deployment, wait_deployment_ready}
use ratelimiter.Loadgen.Kube.Poll.Ends.{Returns, wait_deployment_ready_ends}
use ratelimiter.Loadgen.Kube.Lifecycle.{
  live_pods, sort_pods, ensure_rate_limiter, kill_one_worker, pods,
}
use ratelimiter.Loadgen.Kube.Lifecycle.Setup.{Serving, Yields}
use ratelimiter.Loadgen.Kube.Lifecycle.Ensured.{ensure_rate_limiter_ends}
use ratelimiter.Loadgen.Kube.Simulated.{
  Sim, simulated, sim_send, simulated-IsClocked, simulated-IsStoring,
}

abbrev kube : Kube
kube = record { ns = "ratelimiter"; image = "ratelim:1" }

abbrev pod : String → Pod
pod name = record { name = name; deleting = false; running = true }

abbrev two_pods : List Pod
two_pods = pod "w-b" ∷ record { name = "w-0"; deleting = true; running = true } ∷ pod "w-a" ∷ []

abbrev fresh : Sim
fresh = record { clock = 5; deployments = []; pods = two_pods }

two_live : sort_pods (live_pods two_pods) ≡ pod "w-a" ∷ pod "w-b" ∷ []
unfolding sort_pods live_pods
two_live = refl

killed_in_order :
    (kill_one_worker simulated ([], fresh)).1.0
    ≡ mark_cheapest "w-a" ∷ scale "ratelim-workers" 1 ∷ force_delete "w-a" ∷ []
unfolding kill_one_worker pods sim_send sort_pods live_pods
killed_in_order = refl

wait_deployment_ready_ends_example :
    Returns simulated
      (probe_deployment simulated worker_name 2)
      (simulated.now fresh + 3 * second)
      worker_name
      (wait_deployment_ready simulated worker_name 2 (3 * second) fresh)
wait_deployment_ready_ends_example =
    wait_deployment_ready_ends simulated simulated-IsClocked worker_name 2 (3 * second) fresh

ensure_rate_limiter_ends_example :
    Yields simulated
      (Serving simulated kube 2 (if str_eq "" "" then worker_cpu_default else "") fresh)
      (ensure_rate_limiter simulated kube 2 "" fresh)
ensure_rate_limiter_ends_example =
    ensure_rate_limiter_ends simulated simulated-IsClocked simulated-IsStoring kube 2 "" fresh
