-- ===== src/Loadgen/Kube/Reached/Ends.antt =====
-- How `WaitAllWorkersReachable` ends.
use ratelimiter.Base.{
  ℕ, zero, suc, ◌+◌, ◌*◌, ◌/◌, ◌≤◌, ◌≡◌, refl, arith, String, List, [], ◌∷◌, Option, some, Bool,
  false, length, div_bounds,
}
use ratelimiter.Base.Dict.{insert}
use ratelimiter.Loadgen.Kube.Objects.{Pod}
use ratelimiter.Loadgen.Kube.Client.{Client, Error, Result, ok, err, IsClocked}
use ratelimiter.Loadgen.Kube.Lifecycle.{pods}
use ratelimiter.Loadgen.Kube.Poll.{second, rounds, poll}
use ratelimiter.Loadgen.Kube.Poll.Ends.{poll_ends, Ended}
use ratelimiter.Loadgen.Kube.Reached.{
  decisions_of, all_reached, scrape, worker_decisions, requests, probe_workers,
  wait_all_workers_reachable,
}

module _ (c : Client) where
  -- How `WaitAllWorkersReachable` ends: without the counts of the start it has not waited; with them,
  -- its loop ends, and with nil only after a round in which each live worker had decided more than at
  -- the start.
  pub data Reaching (url : String) (timeout : ℕ) : Result (Unit {0}) × c.State → Type 0 where
    no_base : (e : Error) (s : c.State) → Reaching url timeout (err e, s)
    waited :
        (base : List (String × ℕ)) (s : c.State) (out : Result (Unit {0}) × c.State)
        → Ended c (probe_workers c url base) (c.now s + timeout) "workers" out
        → Reaching url timeout out

module _ (c : Client) (clocked : IsClocked c) where
  pods_take : (role : String) (s : c.State) → c.now s ≤ c.now (pods c role s).1
  unfolding pods
  pods_take role s = ground (arith, clocked.list_takes role s)

  scrape_takes :
      (ps : List Pod) (out : List (String × ℕ)) (s : c.State)
      → c.now s ≤ c.now (scrape c ps out s).1
  unfolding scrape
  scrape_takes [] out s = omega arith
  scrape_takes (p ∷ ps) out s =
      go (c.worker_stats p s).0 (c.worker_stats p s).1 (clocked.stats_takes p s)
        (λ out. scrape_takes ps out (c.worker_stats p s).1)
    where
      go :
          (answer : Result (List (String × List (String × ℕ)))) (s' : c.State)
          → c.now s ≤ c.now s'
          → ((out : List (String × ℕ)) → c.now s' ≤ c.now (scrape c ps out s').1)
          → c.now s
            ≤ c.now
                (elim answer as (λ _. List (String × ℕ) × c.State) [
                  | err e ↦ scrape c ps out s'
                  | ok tenants ↦ scrape c ps (insert p.name (decisions_of tenants) out) s'
                ]).1
      go (err e) s' h k = omega (arith, h, k out)
      go (ok tenants) s' h k = omega (arith, h, k (insert p.name (decisions_of tenants) out))

  requests_take : (n : ℕ) (url : String) (s : c.State) → c.now s ≤ c.now (requests c n url s)
  unfolding requests
  requests_take zero url s = omega arith
  requests_take (suc n) url s =
      omega (arith, clocked.fetch_takes url s, requests_take n url (c.fetch url s).1)

  worker_decisions_take : (s : c.State) → c.now s ≤ c.now (worker_decisions c s).1
  unfolding worker_decisions
  worker_decisions_take s = go (pods c "worker" s).0 (pods c "worker" s).1 (pods_take "worker" s)
    where
      go :
          (found : Result (List Pod)) (s' : c.State)
          → c.now s ≤ c.now s'
          → c.now s
            ≤ c.now
                (elim found as (λ _. Result (List (String × ℕ)) × c.State) [
                  | err e ↦ (err e, s')
                  | ok ps ↦ (ok (scrape c ps [] s').0, (scrape c ps [] s').1)
                ]).1
      go (err e) s' h = h
      go (ok ps) s' h = omega (arith, h, scrape_takes ps [] s')

  probe_workers_takes :
      (url : String) (base : List (String × ℕ)) (s : c.State)
      → c.now s ≤ c.now (probe_workers c url base s).1
  unfolding probe_workers
  probe_workers_takes url base s =
      go (pods c "worker" s).0 (pods c "worker" s).1 (pods_take "worker" s)
    where
      go :
          (found : Result (List Pod)) (s1 : c.State)
          → c.now s ≤ c.now s1
          → c.now s
            ≤ c.now
                (elim found as (λ _. Result Bool × c.State) [
                  | err e ↦ (err e, s1)
                  | ok ps ↦
                      elim (worker_decisions c (requests c (12 * length ps) url s1)).0
                        as (λ _. Result Bool × c.State) [
                          | err e ↦ (
                            ok false,
                            (worker_decisions c (requests c (12 * length ps) url s1)).1,
                          )
                          | ok cur ↦ (
                            ok (all_reached ps cur base),
                            (worker_decisions c (requests c (12 * length ps) url s1)).1,
                          )
                        ]
                ]).1
      go (err e) s1 h = h
      go (ok ps) s1 h =
          let s2 = requests c (12 * length ps) url s1 in
          let a = requests_take (12 * length ps) url s1 in
          let b = worker_decisions_take s2 in ground (arith, h, a, b)

  -- `WaitAllWorkersReachable` returns, whatever the pods answer: nil only after a round in which every
  -- live worker reported more decisions than at the start, a timeout only once its deadline has
  -- passed, and any other error only because the pods could not be listed or the context is done.
  pub wait_all_workers_reachable_ends :
      (url : String) (timeout : ℕ) (s : c.State)
      → (out : Result (Unit {0}) × c.State) × (wait_all_workers_reachable c url timeout s
          ≡ some out)
        × Reaching c url timeout out
  unfolding wait_all_workers_reachable
  wait_all_workers_reachable_ends url timeout s =
      go (worker_decisions c s).0 (worker_decisions c s).1
    where
      go :
          (decided : Result (List (String × ℕ))) (s' : c.State)
          → (out : Result (Unit {0}) × c.State) × (elim decided
                as (λ _. Option (Result (Unit {0}) × c.State)) [
                  | err e ↦ some (err e, s')
                  | ok base ↦
                      poll c
                        (rounds timeout second)
                        (probe_workers c url base)
                        (c.now s' + timeout)
                        second
                        "workers"
                        s'
                ]
              ≡ some out)
            × Reaching c url timeout out
      go (err e) s' = ((err e, s'), refl, no_base e s')
      go (ok base) s' =
          let (out, e, ended) =
            poll_ends c clocked (probe_workers c url base) (probe_workers_takes url base)
              (c.now s' + timeout) second "workers" (suc (timeout / second)) s'
              (omega (arith, div_bounds timeout second (omega arith))) in
          (out, e, waited base s' out ended)
