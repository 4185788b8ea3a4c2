-- ===== src/Loadgen/Kube/Lifecycle/Setup.antt =====
-- The set-up of `EnsureRateLimiter`, step by step: what each has done, and where it fails.
use ratelimiter.Base.{ℕ, ◌*◌, ◌≡◌, refl, ap, ◌∙◌, String, Option, some, Bool, true, arith}
use ratelimiter.Loadgen.Kube.Objects.{
  Kube, coordinator_name, worker_name, coordinator_port, worker_port, coordinator_deployment,
  worker_deployment, service,
}
use ratelimiter.Loadgen.Kube.Client.{Client, Error, Result, ok, err}
use ratelimiter.Loadgen.Kube.Poll.{
  second, probe_deployment, probe_http, wait_deployment_ready, wait_http_ready,
}
use ratelimiter.Loadgen.Kube.Poll.Ends.{Ended, found, broke, timed_out, cut}
use ratelimiter.Loadgen.Kube.Lifecycle.{
  apply_deployment, apply_service, and_then, and_wait, wrapped_in,
}

module _ (c : Client) where
  -- A sequence that returns, with what it returns.
  abbrev pub Yields :
      (Result (Unit {0}) × c.State → Type 0) → Option (Result (Unit {0}) × c.State) → Type 0
  Yields P o = (out : Result (Unit {0}) × c.State) × (o ≡ some out) × P out

  pub and_then-Yields :
      (P : Result (Unit {0}) × c.State → Type 0) (first : Result (Unit {0}) × c.State)
      (next : c.State → Option (Result (Unit {0}) × c.State))
      → ((e : Error) (s : c.State) → first ≡ (err e, s) → P (err e, s))
      → ((s : c.State) → first ≡ (ok tt, s) → Yields P (next s))
      → Yields P (and_then c first next)
  and_then-Yields P (ok u, s) next stop go = go s refl
  and_then-Yields P (err e, s) next stop go = ((err e, s), refl, stop e s refl)

  pub and_wait-Yields :
      (P : Result (Unit {0}) × c.State → Type 0) (first : Option (Result (Unit {0}) × c.State))
      (next : c.State → Option (Result (Unit {0}) × c.State))
      → ((e : Error) (s : c.State) → first ≡ some (err e, s) → P (err e, s))
      → Yields (λ out. (s : c.State) → out ≡ (ok tt, s) → Yields P (next s)) first
      → Yields P (and_wait c first next)
  and_wait-Yields P first next stop (out, e, go) =
      let stopped : (x : Error) (s : c.State) → out ≡ (err x, s) → P (err x, s) =
        λ x s o. stop x s (e ∙ ap some o) in
      rw e (and_then-Yields P out next stopped go)

  -- A wait from one state that ends with nil in another, in which a probe has just succeeded.
  abbrev pub Waits :
      (c.State → Option (Result (Unit {0}) × c.State))
      → (c.State → Result Bool × c.State)
      → (s s' : c.State) → Type 0
  Waits wait probe s s' =
      (wait s ≡ some (ok tt, s')) × ((seen : c.State) × (probe seen ≡ (ok true, s')))

  -- The set-up: the coordinator and its service are applied, and the specification is stored.
  pub record CoordinatorApplied (k : Kube) (s s' : c.State) : Type 0 where
    pub applied : c.State
    pub deployment : apply_deployment c (coordinator_deployment k) s ≡ (ok tt, applied)
    pub specified : c.stored applied coordinator_name ≡ some (coordinator_deployment k).spec
    pub reachable :
        apply_service c (service k coordinator_name "coordinator" coordinator_port) applied
        ≡ (ok tt, s')

  -- The same for the workers.
  pub record WorkersApplied (k : Kube) (workers : ℕ) (cpu : String) (s s' : c.State) : Type 0 where
    pub applied : c.State
    pub deployment : apply_deployment c (worker_deployment k workers cpu) s ≡ (ok tt, applied)
    pub specified : c.stored applied worker_name ≡ some (worker_deployment k workers cpu).spec
    pub reachable :
        apply_service c (service k worker_name "worker" worker_port) applied ≡ (ok tt, s')

  -- The step of the set-up from `s` on that fails, after all before it went through.
  pub data SetupFails (k : Kube) (workers : ℕ) (cpu : String) (s : c.State) (e : Error)
      (s' : c.State) : Type 0 where
    coordinator_refused :
        wrapped_in c "apply coordinator" (apply_deployment c (coordinator_deployment k) s)
          ≡ (err e, s')
        → SetupFails k workers cpu s e s'
    coordinator_unreachable :
        (s1 : c.State)
        → apply_deployment c (coordinator_deployment k) s ≡ (ok tt, s1)
        → wrapped_in c "apply coordinator service"
            (apply_service c (service k coordinator_name "coordinator" coordinator_port) s1)
          ≡ (err e, s')
        → SetupFails k workers cpu s e s'
    workers_refused :
        (s1 : c.State)
        → CoordinatorApplied k s s1
        → wrapped_in c "apply workers" (apply_deployment c (worker_deployment k workers cpu) s1)
          ≡ (err e, s')
        → SetupFails k workers cpu s e s'
    workers_unreachable :
        (s1 s2 : c.State)
        → CoordinatorApplied k s s1
        → apply_deployment c (worker_deployment k workers cpu) s1 ≡ (ok tt, s2)
        → wrapped_in c "apply worker service"
            (apply_service c (service k worker_name "worker" worker_port) s2)
          ≡ (err e, s')
        → SetupFails k workers cpu s e s'
    coordinator_not_ready :
        (s1 s2 : c.State)
        → CoordinatorApplied k s s1
        → WorkersApplied k workers cpu s1 s2
        → wait_deployment_ready c coordinator_name 1 (120 * second) s2 ≡ some (err e, s')
        → SetupFails k workers cpu s e s'
    workers_not_ready :
        (s1 s2 s3 : c.State)
        → CoordinatorApplied k s s1
        → WorkersApplied k workers cpu s1 s2
        → Waits
            (wait_deployment_ready c coordinator_name 1 (120 * second))
            (probe_deployment c coordinator_name 1)
            s2
            s3
        → wait_deployment_ready c worker_name workers (120 * second) s3 ≡ some (err e, s')
        → SetupFails k workers cpu s e s'
    not_answering :
        (s1 s2 s3 s4 : c.State)
        → CoordinatorApplied k s s1
        → WorkersApplied k workers cpu s1 s2
        → Waits
            (wait_deployment_ready c coordinator_name 1 (120 * second))
            (probe_deployment c coordinator_name 1)
            s2
            s3
        → Waits
            (wait_deployment_ready c worker_name workers (120 * second))
            (probe_deployment c worker_name workers)
            s3
            s4
        → wait_http_ready c "http://ratelim-workers:8080/healthz" (30 * second) s4
          ≡ some (err e, s')
        → SetupFails k workers cpu s e s'

  -- The rate limiter is set up from `s` on, one step after the other: everything is applied before
  -- anything is waited for, and each wait has seen what it waited for.
  pub data Serving (k : Kube) (workers : ℕ) (cpu : String) (s : c.State)
      : Result (Unit {0}) × c.State → Type 0 where
    gave_up :
        (e : Error) (s' : c.State)
        → SetupFails k workers cpu s e s'
        → Serving k workers cpu s (err e, s')
    serves :
        (s1 s2 s3 s4 s' : c.State)
        → CoordinatorApplied k s s1
        → WorkersApplied k workers cpu s1 s2
        → Waits
            (wait_deployment_ready c coordinator_name 1 (120 * second))
            (probe_deployment c coordinator_name 1)
            s2
            s3
        → Waits
            (wait_deployment_ready c worker_name workers (120 * second))
            (probe_deployment c worker_name workers)
            s3
            s4
        → Waits
            (wait_http_ready c "http://ratelim-workers:8080/healthz" (30 * second))
            (probe_http c "http://ratelim-workers:8080/healthz")
            s4
            s'
        → Serving k workers cpu s (ok tt, s')

  -- The state at which a wait that ended with nil saw what it waited for.
  pub last_probe :
      {probe : c.State → Result Bool × c.State} {deadline : ℕ} {what : String}
      (out : Result (Unit {0}) × c.State) (s' : c.State)
      → Ended c probe deadline what out
      → out ≡ (ok tt, s')
      → (s : c.State) × (probe s ≡ (ok true, s'))
  last_probe _ s' (found s s1 p) e = let same : s1 ≡ s' = ap (λ o. o.1) e in (s, rw (← same) p)
  last_probe _ s' (broke s s1 e' p) e = absurd (ground (arith, ap (λ o. o.0) e))
  last_probe _ s' (timed_out s late) e = absurd (ground (arith, ap (λ o. o.0) e))
  last_probe _ s' (cut s) e = absurd (ground (arith, ap (λ o. o.0) e))

  pub wrapped_ok :
      (text : String) (first : Result (Unit {0}) × c.State) (s : c.State)
      → wrapped_in c text first ≡ (ok tt, s)
      → first ≡ (ok tt, s)
  wrapped_ok text (ok u, s1) s e = e
  wrapped_ok text (err e', s1) s e = absurd (ground (arith, ap (λ o. o.0) e))
