-- ===== src/Loadgen/Kube/Reached.antt =====
-- internal/loadgen/kube.go: `WorkerDecisions` and `WaitAllWorkersReachable`.
pub mod Ends
use ratelimiter.Base.{
  ℕ, zero, suc, ◌+◌, ◌*◌, ◌/◌, ◌≤◌, ◌<◌, ◌≡◌, refl, arith, String, List, [], ◌∷◌, Option, none,
  some, Bool, true, false, ◌&&◌, ltb, leb, if◌then◌else◌, length, sum_by, div_bounds,
}
use ratelimiter.Base.Dict.{lookup, insert}
use ratelimiter.Loadgen.Kube.Objects.{Pod}
use ratelimiter.Loadgen.Kube.Client.{Client, Error, Result, ok, err, IsClocked}
use ratelimiter.Loadgen.Kube.Lifecycle.{pods}
use ratelimiter.Loadgen.Kube.Poll.{Action, second, rounds, poll}
use ratelimiter.Loadgen.Kube.Poll.Ends.{Returns, poll_ends, Ended}

-- `t[key]` and `m[key]`, where a missing key counts 0.
abbrev pub or_zero : Option ℕ → ℕ
or_zero none = 0
or_zero (some n) = n

-- The decisions that a worker reports: those admitted and rejected of all tenants.
unfoldable pub decisions_of : List (String × List (String × ℕ)) → ℕ
unfolding lookup
decisions_of tenants =
    sum_by (λ (name, t). or_zero (lookup "admitted" t) + or_zero (lookup "rejected" t)) tenants

-- The test of the loop: every pod has decided something since the start.
unfoldable pub all_reached : List Pod → List (String × ℕ) → List (String × ℕ) → Bool
unfolding lookup
all_reached [] cur base = true
all_reached (p ∷ ps) cur base =
    let rest = all_reached ps cur base in
    if leb (or_zero (lookup p.name cur)) (or_zero (lookup p.name base)) then false else rest

module _ (c : Client) where
  -- The loop of `WorkerDecisions`: a pod that does not answer is left out.
  unfoldable pub scrape : List Pod → List (String × ℕ) → c.State → List (String × ℕ) × c.State
  unfolding decisions_of insert
  scrape [] out s = (out, s)
  scrape (p ∷ ps) out s =
      let (answer, s') = c.worker_stats p s in
      elim answer [
        | err e ↦ scrape ps out s'
        | ok tenants ↦ scrape ps (insert p.name (decisions_of tenants) out) s'
      ]

  -- `WorkerDecisions`
  unfoldable pub worker_decisions : c.State → Result (List (String × ℕ)) × c.State
  unfolding scrape
  worker_decisions s =
      let (found, s') = pods c "worker" s in
      elim found [ err e ↦ (err e, s') | ok ps ↦ let (out, s'') = scrape ps [] s' in (ok out, s'') ]

  -- The requests of one round.
  unfoldable pub requests : ℕ → String → c.State → c.State
  requests zero url s = s
  requests (suc n) url s = requests n url (c.fetch url s).1

  unfoldable pub probe_workers : String → List (String × ℕ) → Action c Bool
  unfolding all_reached requests
  probe_workers worker_url base s =
      let (found, s1) = pods c "worker" s in
      elim found [
        | err e ↦ (err e, s1)
        | ok ps ↦
            let s2 = requests (12 * length ps) worker_url s1 in
            let (decided, s3) = worker_decisions s2 in
            elim decided [ err e ↦ (ok false, s3) | ok cur ↦ (ok (all_reached ps cur base), s3) ]
      ]

  -- `WaitAllWorkersReachable`; the URL is that of a check of tenant-hi.
  unfoldable pub wait_all_workers_reachable :
      String → (timeout : ℕ) → c.State → Option (Result (Unit {0}) × c.State)
  unfolding poll
  wait_all_workers_reachable worker_url timeout s =
      let (decided, s') = worker_decisions s in
      elim decided [
        | err e ↦ some (err e, s')
        | ok base ↦
            poll c (rounds timeout second) (probe_workers worker_url base) (c.now s' + timeout)
              second "workers" s'
      ]
