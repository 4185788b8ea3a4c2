-- ===== src/Loadgen/Kube/Lifecycle/Ensured.antt =====
-- What `EnsureRateLimiter` has done when it returns.
use ratelimiter.Base.{ℕ, ◌*◌, ◌≡◌, refl, ap, ◌∙◌, String, str_eq, some, if◌then◌else◌}
use ratelimiter.Loadgen.Kube.Objects.{
  Kube, coordinator_name, worker_name, coordinator_port, worker_port, worker_cpu_default,
  coordinator_deployment, worker_deployment, service,
}
use ratelimiter.Loadgen.Kube.Client.{Client, Result, ok, err, IsClocked, IsStoring}
use ratelimiter.Loadgen.Kube.Poll.{
  second, probe_deployment, probe_http, wait_deployment_ready, wait_http_ready,
}
use ratelimiter.Loadgen.Kube.Poll.Ends.{Ended, wait_deployment_ready_ends, wait_http_ready_ends}
use ratelimiter.Loadgen.Kube.Lifecycle.{
  apply_deployment, apply_service, wrapped_in, ensure_serving, ensure_worker_service,
  ensure_workers, ensure_coordinator_service, ensure_rate_limiter,
}
use ratelimiter.Loadgen.Kube.Lifecycle.Stored.{apply_deployment_stores}
use ratelimiter.Loadgen.Kube.Lifecycle.Setup.{
  Yields, and_then-Yields, and_wait-Yields, Waits, CoordinatorApplied, WorkersApplied,
  coordinator_refused, coordinator_unreachable, workers_refused, workers_unreachable,
  coordinator_not_ready, workers_not_ready, not_answering, Serving, gave_up, serves, last_probe,
  wrapped_ok,
}

module _ (c : Client) (clocked : IsClocked c) (storing : IsStoring c) where
  ensure_serving_ends :
      (k : Kube) (workers : ℕ) (cpu : String) (s0 s1 s : c.State)
      → CoordinatorApplied c k s0 s1
      → WorkersApplied c k workers cpu s1 s
      → Yields c (Serving c k workers cpu s0) (ensure_serving c workers s)
  unfolding ensure_serving
  ensure_serving_ends k workers cpu s0 s1 s p q =
      let P = Serving c k workers cpu s0 in
      let url : String = "http://ratelim-workers:8080/healthz" in
      let (out, e, ended) =
        wait_deployment_ready_ends c clocked coordinator_name 1 (120 * second) s in
      and_wait-Yields c P _ _ (λ x s' f. gave_up x s' (coordinator_not_ready s1 s p q f))
        (
          out,
          e,
          λ s3 o.
              let (out', e', ended') =
                wait_deployment_ready_ends c clocked worker_name workers (120 * second) s3 in
              let ready : Waits c (wait_deployment_ready c coordinator_name 1 (120 * second))
                  (probe_deployment c coordinator_name 1) s s3 =
                (e ∙ ap some o, last_probe c out s3 ended o) in
              and_wait-Yields c P _ _
                (λ x s' f. gave_up x s' (workers_not_ready s1 s s3 p q ready f))
                (
                  out',
                  e',
                  λ s4 o'.
                      let (out'', e'', ended'') =
                        wait_http_ready_ends c clocked url (30 * second) s4 in
                      (
                        out'',
                        e'',
                        served s3 s4 out'' ready (e' ∙ ap some o', last_probe c out' s4 ended' o')
                            e'' ended'',
                      ),
                ),
        )
    where
      served :
          {deadline : ℕ} (s3 s4 : c.State) (out : Result (Unit {0}) × c.State)
          → Waits c
              (wait_deployment_ready c coordinator_name 1 (120 * second))
              (probe_deployment c coordinator_name 1)
              s
              s3
          → Waits c
              (wait_deployment_ready c worker_name workers (120 * second))
              (probe_deployment c worker_name workers)
              s3
              s4
          → wait_http_ready c "http://ratelim-workers:8080/healthz" (30 * second) s4 ≡ some out
          → Ended c
              (probe_http c "http://ratelim-workers:8080/healthz")
              deadline
              "http://ratelim-workers:8080/healthz"
              out
          → Serving c k workers cpu s0 out
      served s3 s4 (ok u, s') a b e ended =
          serves s1 s s3 s4 s' p q a b (e, last_probe c (ok tt, s') s' ended refl)
      served s3 s4 (err x, s') a b e ended = gave_up x s' (not_answering s1 s s3 s4 p q a b e)

  -- `EnsureRateLimiter` returns, whatever the cluster answers. If it returns nil, then one after the
  -- other the coordinator was applied and its specification stored, its service was applied, the
  -- given number of workers was applied and their specification stored, their service was applied,
  -- and after all that the coordinator was seen ready with one replica, the workers with their
  -- number, and the Service answered 200. If it returns an error, it is that of the first of these
  -- steps that failed.
  pub ensure_rate_limiter_ends :
      (k : Kube) (workers : ℕ) (worker_cpu : String) (s : c.State)
      → Yields c
          (Serving c k workers (if str_eq worker_cpu "" then worker_cpu_default else worker_cpu) s)
          (ensure_rate_limiter c k workers worker_cpu s)
  unfolding ensure_rate_limiter ensure_coordinator_service ensure_workers ensure_worker_service
      coordinator_deployment worker_deployment
  ensure_rate_limiter_ends k workers worker_cpu s =
      let cpu : String = if str_eq worker_cpu "" then worker_cpu_default else worker_cpu in
      let P = Serving c k workers cpu s in
      let stored = apply_deployment_stores c storing in
      let first = apply_deployment c (coordinator_deployment k) s in
      and_then-Yields c P (wrapped_in c "apply coordinator" first)
        (ensure_coordinator_service c k workers cpu)
        (λ e s' f. gave_up e s' (coordinator_refused f))
        (λ s1 e1.
          let d1 = wrapped_ok c "apply coordinator" first s1 e1 in
          let second_one =
            apply_service c (service k coordinator_name "coordinator" coordinator_port) s1 in
          and_then-Yields c P (wrapped_in c "apply coordinator service" second_one)
            (ensure_workers c k workers cpu)
            (λ e s' f. gave_up e s' (coordinator_unreachable s1 d1 f))
            (λ s2 e2.
              let p : CoordinatorApplied c k s s2 = record {
                applied = s1;
                deployment = d1;
                specified = stored (coordinator_deployment k) s s1 d1;
                reachable = wrapped_ok c "apply coordinator service" second_one s2 e2;
              } in
              let third = apply_deployment c (worker_deployment k workers cpu) s2 in
              and_then-Yields c P (wrapped_in c "apply workers" third)
                (ensure_worker_service c k workers)
                (λ e s' f. gave_up e s' (workers_refused s2 p f))
                (λ s3 e3.
                  let d3 = wrapped_ok c "apply workers" third s3 e3 in
                  let last = apply_service c (service k worker_name "worker" worker_port) s3 in
                  and_then-Yields c P (wrapped_in c "apply worker service" last)
                    (ensure_serving c workers)
                    (λ e s' f. gave_up e s' (workers_unreachable s2 s3 p d3 f))
                    (λ s4 e4.
                      let q : WorkersApplied c k workers cpu s2 s4 = record {
                        applied = s3;
                        deployment = d3;
                        specified = stored (worker_deployment k workers cpu) s2 s3 d3;
                        reachable = wrapped_ok c "apply worker service" last s4 e4;
                      } in
                      ensure_serving_ends k workers cpu s s2 s4 p q))))
