-- ===== src/Loadgen/Scenarios/Kills/Ends.antt =====
-- How the scripts with a kill end.
use ratelimiter.Base.{ℕ, ◌+◌, ◌*◌, ◌≡◌, refl, List, Option, some}
use ratelimiter.Loadgen.Kube.Objects.{Kube, worker_name, worker_cpu_default, coordinator_name}
use ratelimiter.Loadgen.Kube.Client.{Client, Error, Result, ok, err, scale, IsClocked, IsStoring}
use ratelimiter.Loadgen.Kube.Poll.{second, probe_deployment, wait_deployment_ready}
use ratelimiter.Loadgen.Kube.Poll.Ends.{Ended, wait_deployment_ready_ends}
use ratelimiter.Loadgen.Kube.Lifecycle.{and_then, restore_coordinator, ensure_rate_limiter}
use ratelimiter.Loadgen.Kube.Lifecycle.Setup.{Serving}
use ratelimiter.Loadgen.Kube.Lifecycle.Ensured.{ensure_rate_limiter_ends}
use ratelimiter.Loadgen.Scenarios.Hooks.{Fault, worker_kill_hook, coordinator_kill_hook}
use ratelimiter.Loadgen.Scenarios.Loads.{Load}
use ratelimiter.Loadgen.Scenarios.Scaling.{Measured}
use ratelimiter.Loadgen.Scenarios.Scaling.Ends.{Gives, bind-Gives}
use ratelimiter.Loadgen.Scenarios.Kills.{measure_kill, run_worker_kill, run_coordinator_kill}

module _ (c : Client) where
  -- How `RestoreCoordinator` ends: the scaling is sent first, and only if it goes through the
  -- coordinator is waited for.
  pub data Restoring (s : c.State) : Result (Unit {0}) × c.State → Type 0 where
    not_scaled :
        (e : Error) (s' : c.State)
        → c.send (scale coordinator_name 1) s ≡ (err e, s')
        → Restoring s (err e, s')
    waited :
        (s' : c.State) (out : Result (Unit {0}) × c.State)
        → c.send (scale coordinator_name 1) s ≡ (ok tt, s')
        → Ended c
            (probe_deployment c coordinator_name 1)
            (c.now s' + 120 * second)
            coordinator_name
            out
        → Restoring s out

  restore_coordinator_ends :
      IsClocked c → (s : c.State) → Gives (Restoring s) (restore_coordinator c s)
  unfolding restore_coordinator
  restore_coordinator_ends clocked s = go (c.send (scale coordinator_name 1) s) refl
    where
      go :
          (first : Result (Unit {0}) × c.State)
          → c.send (scale coordinator_name 1) s ≡ first
          → Gives
              (Restoring s)
              (and_then c first (λ s. wait_deployment_ready c coordinator_name 1 (120 * second) s))
      go (err e, s') p = ((err e, s'), refl, not_scaled e s' p)
      go (ok _, s') p =
          let (out, e, ended) =
            wait_deployment_ready_ends c clocked coordinator_name 1 (120 * second) s' in
          (out, e, waited s' out p ended)

  -- Where the coordinator is restored, whatever `RestoreCoordinator` answers.
  abbrev pub IsRestored : c.State → c.State → Type 0
  IsRestored after last = (answer : Result (Unit {0})) × Restoring after (answer, last)

module _ (c : Client) (drive : (ℕ → Option Fault) → List Load → ℕ → c.State → Measured × c.State)
    (k : Kube) (loads : List Load) (secs : ℕ) (s : c.State) where
  -- A script with a kill that ended: it was refused, in the state that the setup left, or it measured
  -- a rate limiter that served and then restored it.
  pub data Killed (hook : ℕ → Option Fault) (Back : c.State → c.State → Type 0)
      : Result Measured × c.State → Type 0 where
    refused :
        (e : Error) (s' : c.State)
        → ensure_rate_limiter c k 2 worker_cpu_default s ≡ some (err e, s')
        → Killed hook Back (err e, s')
    restored :
        (served after last : c.State) (rs : Measured)
        → Serving c k 2 worker_cpu_default s (ok tt, served)
        → measure_kill c drive k loads secs hook served ≡ (rs, after)
        → Back after last
        → Killed hook Back (ok rs, last)

  module _ (clocked : IsClocked c) (storing : IsStoring c) where
    run_worker_kill_ends :
        (kill_at : ℕ)
        → Gives
            (Killed
              (worker_kill_hook kill_at)
              (λ after last. (c.send (scale worker_name 2) after).1 ≡ last))
            (run_worker_kill c drive k loads secs kill_at s)
    unfolding run_worker_kill
    run_worker_kill_ends kill_at =
        let (out, e, serving) =
          ensure_rate_limiter_ends c clocked storing k 2 worker_cpu_default s in
        bind-Gives _ _ _ (λ e s' p. refused e s' p)
          (
            out,
            e,
            λ _ s1 o1.
                let (rs, s2) = measure_kill c drive k loads secs (worker_kill_hook kill_at) s1 in
                (
                  (ok rs, (c.send (scale worker_name 2) s2).1),
                  refl,
                  restored s1 s2 _ rs (rw (← o1) serving) refl refl,
                ),
          )

    run_coordinator_kill_ends :
        (kill_at restore_at : ℕ)
        → Gives
            (Killed (coordinator_kill_hook kill_at restore_at) (IsRestored c))
            (run_coordinator_kill c drive k loads secs kill_at restore_at s)
    unfolding run_coordinator_kill
    run_coordinator_kill_ends kill_at restore_at =
        let (out, e, serving) =
          ensure_rate_limiter_ends c clocked storing k 2 worker_cpu_default s in
        bind-Gives _ _ _ (λ e s' p. refused e s' p)
          (
            out,
            e,
            λ _ s1 o1.
                let (rs, s2) =
                  measure_kill c drive k loads secs (coordinator_kill_hook kill_at restore_at) s1 in
                let ((r, s3), e', back) = restore_coordinator_ends c clocked s2 in
                rw e' ((ok rs, s3), refl, restored s1 s2 s3 rs (rw (← o1) serving) refl (r, back)),
          )

    -- The scripts of both kills return, whatever the cluster answers, the kill does and the driver
    -- measures. They fail only as the setup of the rate limiter with 2 workers does, and have then
    -- done nothing after it. Else they give the results of a rate limiter that served, and after the
    -- measurement the workers are scaled back to 2, or the coordinator to 1 and waited for, once that
    -- scaling is accepted; a failure of this restoration does not change the results.
    pub kills_end :
        (kill_at restore_at : ℕ)
        → Gives
            (Killed
              (worker_kill_hook kill_at)
              (λ after last. (c.send (scale worker_name 2) after).1 ≡ last))
            (run_worker_kill c drive k loads secs kill_at s)
          × Gives
              (Killed (coordinator_kill_hook kill_at restore_at) (IsRestored c))
              (run_coordinator_kill c drive k loads secs kill_at restore_at s)
    kills_end kill_at restore_at =
        (run_worker_kill_ends kill_at, run_coordinator_kill_ends kill_at restore_at)
