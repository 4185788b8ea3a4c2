-- ===== src/Loadgen/Kube/Lifecycle.antt =====
-- internal/loadgen/kube.go: applying, killing and restoring the parts of the rate limiter.
-- The calls that change the cluster are logged where their order matters.
pub mod Pods
pub mod Stored
pub mod Setup
pub mod Ensured
pub mod Killed
use Prim.Native.String.{compare as str_compare}
use text.Mathlib.Text.{is_le}
use ratelimiter.Base.{
  ℕ, suc, ◌*◌, String, str_eq, List, [], ◌∷◌, ◌++◌, Option, none, some, Bool, true, false, not,
  ◌&&◌, ◌||◌, if◌then◌else◌, length,
}
use ratelimiter.Loadgen.Kube.Objects.{
  Kube, Deployment, Service, Pod, coordinator_name, worker_name, coordinator_port, worker_port,
  worker_cpu_default, coordinator_deployment, worker_deployment, service,
}
use ratelimiter.Loadgen.Kube.Client.{
  Client, Error, other, wrapped, Result, ok, err, is_conflict, is_already_exists, is_not_found,
  Call, create_deployment, update_deployment, create_service, scale, mark_cheapest, force_delete,
}
use ratelimiter.Loadgen.Kube.Poll.{second, wait_deployment_ready, wait_http_ready}

-- The pods that count: running, and not being deleted.
abbrev pub is_live : Pod → Bool
is_live p = not p.deleting && p.running

unfoldable pub live_pods : List Pod → List Pod
live_pods [] = []
live_pods (p ∷ ps) = let rest = live_pods ps in if is_live p then p ∷ rest else rest

-- `sort.Slice` by name.
unfoldable pub insert_pod : Pod → List Pod → List Pod
insert_pod p [] = p ∷ []
insert_pod p (q ∷ ps) =
    let rest = insert_pod p ps in if is_le (str_compare p.name q.name) then p ∷ q ∷ ps else q ∷ rest

unfoldable pub sort_pods : List Pod → List Pod
unfolding insert_pod
sort_pods [] = []
sort_pods (p ∷ ps) = insert_pod p (sort_pods ps)

abbrev pub may_retry : Error → Bool
may_retry e = is_conflict e || is_already_exists e

abbrev pub wrap : String → Result (Unit {0}) → Result (Unit {0})
wrap text (ok u) = ok u
wrap text (err e) = err (wrapped text e)

module _ (c : Client) where
  -- One try of `applyDeployment`.
  unfoldable pub apply_once : Deployment → c.State → Result (Unit {0}) × c.State
  apply_once d s =
      let (answer, s') = c.get d.name s in
      elim answer [
        | err e ↦ if is_not_found e then c.send (create_deployment d) s' else (err e, s')
        | ok existing ↦ c.send (update_deployment (record existing { spec = d.spec })) s'
      ]

  -- `applyDeployment`
  unfoldable pub apply_deployment : Deployment → c.State → Result (Unit {0}) × c.State
  unfolding apply_once
  apply_deployment d s = c.on_error may_retry (apply_once d) s

  -- `applyService`
  unfoldable pub apply_service : Service → c.State → Result (Unit {0}) × c.State
  apply_service sv s =
      let (answer, s') = c.send (create_service sv) s in
      elim answer [
        | ok u ↦ (ok u, s')
        | err e ↦ if is_already_exists e then (ok tt, s') else (err e, s')
      ]

  -- `if err := …; err != nil { return err }`
  abbrev pub and_then :
      Result (Unit {0}) × c.State
      → (c.State → Option (Result (Unit {0}) × c.State))
      → Option (Result (Unit {0}) × c.State)
  and_then (ok u, s) next = next s
  and_then (err e, s) next = some (err e, s)

  abbrev pub and_wait :
      Option (Result (Unit {0}) × c.State)
      → (c.State → Option (Result (Unit {0}) × c.State))
      → Option (Result (Unit {0}) × c.State)
  and_wait none next = none
  and_wait (some out) next = and_then out next

  abbrev pub wrapped_in : String → Result (Unit {0}) × c.State → Result (Unit {0}) × c.State
  wrapped_in text (r, s) = (wrap text r, s)

  -- The waits of `EnsureRateLimiter`.
  unfoldable pub ensure_serving : ℕ → c.State → Option (Result (Unit {0}) × c.State)
  ensure_serving workers s =
      and_wait (wait_deployment_ready c coordinator_name 1 (120 * second) s) (λ s.
        and_wait (wait_deployment_ready c worker_name workers (120 * second) s)
          (λ s. wait_http_ready c "http://ratelim-workers:8080/healthz" (30 * second) s))

  -- `EnsureRateLimiter` from its last step to its first, each with what follows it.
  unfoldable pub ensure_worker_service : Kube → ℕ → c.State → Option (Result (Unit {0}) × c.State)
  ensure_worker_service k workers s =
      and_then
        (wrapped_in "apply worker service"
          (apply_service (service k worker_name "worker" worker_port) s))
        (ensure_serving workers)

  unfoldable pub ensure_workers : Kube → ℕ → String → c.State → Option (Result (Unit {0}) × c.State)
  ensure_workers k workers cpu s =
      and_then (wrapped_in "apply workers" (apply_deployment (worker_deployment k workers cpu) s))
        (ensure_worker_service k workers)

  unfoldable pub ensure_coordinator_service :
      Kube → ℕ → String → c.State → Option (Result (Unit {0}) × c.State)
  ensure_coordinator_service k workers cpu s =
      and_then
        (wrapped_in "apply coordinator service"
          (apply_service (service k coordinator_name "coordinator" coordinator_port) s))
        (ensure_workers k workers cpu)

  unfoldable pub ensure_rate_limiter :
      Kube → ℕ → String → c.State → Option (Result (Unit {0}) × c.State)
  ensure_rate_limiter k workers worker_cpu s =
      let cpu : String = if str_eq worker_cpu "" then worker_cpu_default else worker_cpu in
      and_then (wrapped_in "apply coordinator" (apply_deployment (coordinator_deployment k) s))
        (ensure_coordinator_service k workers cpu)

  -- A cluster with the calls that were sent to it, the first one first.
  abbrev pub Logged : Type 0
  Logged = List Call × c.State

  abbrev pub send_logged : Call → Logged → Result (Unit {0}) × Logged
  send_logged call (log, s) = let (answer, s') = c.send call s in (answer, (log ++ call ∷ [], s'))

  -- `pods`
  unfoldable pub pods : String → c.State → Result (List Pod) × c.State
  unfolding live_pods sort_pods
  pods role s =
      let (answer, s') = c.list_pods role s in
      elim answer [ err e ↦ (err e, s') | ok listed ↦ (ok (sort_pods (live_pods listed)), s') ]

  -- The part of `KillOneWorkerNoReplacement` behind the list: the victim is marked, the deployment
  -- scaled down, and the victim deleted.
  unfoldable pub kill_first : List Pod → Logged → Result String × Logged
  kill_first [] w = (err (other "need >=2 running workers"), w)
  kill_first (p ∷ []) w = (err (other "need >=2 running workers"), w)
  kill_first (p ∷ q ∷ ps) w =
      let (marked, w1) = send_logged (mark_cheapest p.name) w in
      let (scaled, w2) = send_logged (scale worker_name (length (q ∷ ps))) w1 in
      let (deleted, w3) = send_logged (force_delete p.name) w2 in
      elim marked [
        | err e ↦ (err e, w1)
        | ok _ ↦ elim scaled [
          | err e ↦ (err e, w2)
          | ok _ ↦ elim deleted [ err e ↦ (err e, w3) | ok _ ↦ (ok p.name, w3) ]
        ]
      ]

  -- `KillOneWorkerNoReplacement`
  unfoldable pub kill_one_worker : Logged → Result String × Logged
  unfolding kill_first
  kill_one_worker (log, s) =
      let (found, s') = pods "worker" s in
      elim found [ err e ↦ (err e, (log, s')) | ok ps ↦ kill_first ps (log, s') ]

  -- The loop of `KillCoordinator`: a pod that is gone already is no error.
  unfoldable pub delete_all : List Pod → Logged → Result (Unit {0}) × Logged
  delete_all [] w = (ok tt, w)
  delete_all (p ∷ ps) w =
      let (answer, w') = send_logged (force_delete p.name) w in
      elim answer [
        | ok _ ↦ delete_all ps w'
        | err e ↦ elim (is_not_found e) [ true ↦ delete_all ps w' | false ↦ (err e, w') ]
      ]

  -- `KillCoordinator`
  unfoldable pub kill_coordinator : Logged → Result (Unit {0}) × Logged
  unfolding delete_all
  kill_coordinator w =
      let (scaled, (log, s)) = send_logged (scale coordinator_name 0) w in
      elim scaled [
        | err e ↦ (err e, (log, s))
        | ok _ ↦
            let (found, s') = pods "coordinator" s in
            elim found [ err e ↦ (err e, (log, s')) | ok ps ↦ delete_all ps (log, s') ]
      ]

  -- `RestoreCoordinator`
  unfoldable pub restore_coordinator : c.State → Option (Result (Unit {0}) × c.State)
  restore_coordinator s =
      and_then (c.send (scale coordinator_name 1) s)
        (wait_deployment_ready c coordinator_name 1 (120 * second))
