-- ===== src/Cluster/Limit.antt =====
-- The global limit: what all workers together admit, whatever happens.
use ratelimiter.Base.{
  ℕ, ◌+◌, ◌-◌, ◌*◌, ◌≤◌, ◌≡◌, List, [], ◌∷◌, ◌++◌, arith, All, length, sum_by, sum_by-append,
  mul_mono, mul-sub, ap,
}
use ratelimiter.Base.Int.{ℤ, to_nat}
use native.Mathlib.Nat.{sub-zero}
use ratelimiter.Bucket
use ratelimiter.Bucket.{token}
use ratelimiter.Bucket.Bounds.{take_up_to-gained}
use ratelimiter.Config.{Config}
use ratelimiter.Coordinator.{TenantState, new_tenant, lease_tenant}
use ratelimiter.Coordinator.Accounts.{lease_tenant-bucket, lease_tenant_lem}
use ratelimiter.Worker.Pool.{failed}
use ratelimiter.Worker.Pool.Admission
use ratelimiter.Worker.Pool.Admission.{spent_at}
use ratelimiter.Worker.Pool.Renewal.{slack}
use ratelimiter.Worker.Leaser.{lease, grant_of}
use ratelimiter.Worker.Replica.{Replica, asked, answered, check, wake, give_up, renewed}
use ratelimiter.Worker.Replica.Flight
use ratelimiter.Worker.Replica.Flight.{outstanding, outstanding-le, call_tokens}
use ratelimiter.Worker.Replica.Budget.{
  check_budget, wake_budget, give_up_budget, renewed_budget, call_budget,
}
use ratelimiter.Cluster.{
  Cluster, Step, advance, request, wakes, times_out, leases, loses, strays, fails, renews, crashes,
  starts, restarts, Reach, here, next, reply_of, new_cluster,
}
use ratelimiter.Cluster.Invariant.{IsValid, burst, Reach-IsValid, new_cluster-IsValid}

-- Tokens granted to workers and not yet taken.
abbrev pub all_outstanding : List Replica → ℕ
all_outstanding rs = sum_by outstanding rs

-- One worker of the list changes: what is outstanding changes by as much.
swap_outstanding :
    {rs : List Replica} (before after : List Replica) (r r' : Replica)
    → rs ≡ before ++ r ∷ after
    → all_outstanding (before ++ r' ∷ after) + outstanding r ≡ all_outstanding rs + outstanding r'
swap_outstanding before after r r' e = omega (
  arith,
  ap (sum_by outstanding) e,
  sum_by-append outstanding before (r ∷ after),
  sum_by-append outstanding before (r' ∷ after),
)

-- What has been admitted and may still be, in units, against the time of the bucket and the restarts.
record NoGain (rate : ℤ) (c d : Cluster) : Type 0 where
  spent :
      token * (d.admitted + all_outstanding d.replicas)
        + d.tenant.bucket.tokens
        + to_nat rate * c.tenant.bucket.last
        + burst rate * c.restarts
      ≤ token * (c.admitted + all_outstanding c.replicas)
        + c.tenant.bucket.tokens
        + to_nat rate * d.tenant.bucket.last
        + burst rate * d.restarts
  forward : c.tenant.bucket.last ≤ d.tenant.bucket.last
  later : c.restarts ≤ d.restarts

-- A lease call debits what it grants.
lease_tenant-gained :
    (rate : ℤ) (cfg : Config) (ts : TenantState) (now : ℕ)
    → ts.bucket.rate ≡ to_nat rate
    → let (ts', resp) = lease_tenant cfg ts now in
      (token * call_tokens (answered (reply_of resp))
          + ts'.bucket.tokens
          + to_nat rate * ts.bucket.last
        ≤ ts.bucket.tokens + to_nat rate * ts'.bucket.last)
      × (ts.bucket.last ≤ ts'.bucket.last)
unfolding reply_of lease grant_of
lease_tenant-gained rate cfg ts now h =
    let size : ℕ = to_nat cfg.lease.size in
    ground (
      arith,
      lease_tenant-bucket cfg ts now,
      lease_tenant_lem cfg ts now,
      take_up_to-gained ts.bucket size now,
    )

Step-NoGain :
    {cfg : Config} {rate : ℤ} {max_cost : ℕ} {c d : Cluster}
    → Step cfg rate max_cost c d
    → IsValid cfg rate max_cost c
    → NoGain rate c d
unfolding new_tenant Bucket.new
Step-NoGain {cfg} {rate} {max_cost} {c} step v = go step
  where
    -- A worker that spends `taken` out of what it holds.
    worker_only :
        (before after : List Replica) (r r' : Replica) (taken : ℕ)
        → c.replicas ≡ before ++ r ∷ after
        → outstanding r' + taken ≤ outstanding r
        → NoGain rate c
            (record c { replicas = before ++ r' ∷ after; admitted = c.admitted + taken })
    worker_only before after r r' taken e h = omega (arith, swap_outstanding before after r r' e)

    go : {d : Cluster} → Step cfg rate max_cost c d → NoGain rate c d
    go (advance t) = omega arith
    go (request before after r now cost e h k l) =
        worker_only before after r (check r now cost).0 (spent_at (check r now cost).1 cost) e
          (check_budget r now cost)
    go (wakes before after r first last w now e f g h) =
        worker_only before after r (wake r now w.cost (first ++ last)).0
          (Admission.spent (wake r now w.cost (first ++ last)).1 w.cost) e
          (wake_budget r now w.cost (first ++ last))
    go (times_out before after r first last w e f) = omega (
      arith,
      swap_outstanding before after r (give_up r w.cost (first ++ last)) e,
      give_up_budget r w.cost (first ++ last),
    )
    go (leases before after r first last now e f h) =
        let d = answered (reply_of (lease_tenant cfg c.tenant now).1) in
        omega (
          arith,
          swap_outstanding before after r (record r { calls = first ++ d ∷ last }) e,
          call_budget r first last asked d f,
          lease_tenant-gained rate cfg c.tenant now v.bucket.same_rate,
        )
    go (loses before after r first last now e f h) = omega (
      arith,
      swap_outstanding before after r (record r { calls = first ++ answered failed ∷ last }) e,
      call_budget r first last asked (answered failed) f,
      lease_tenant-gained rate cfg c.tenant now v.bucket.same_rate,
    )
    go (strays now h) = omega (arith, lease_tenant-gained rate cfg c.tenant now v.bucket.same_rate)
    go (fails before after r first last call e f) = omega (
      arith,
      swap_outstanding before after r (record r { calls = first ++ answered failed ∷ last }) e,
      call_budget r first last call (answered failed) f,
    )
    go (renews before after r first last reply now draw e f h) = omega (
      arith,
      swap_outstanding before after r (renewed r now reply draw (first ++ last)) e,
      renewed_budget r now reply draw first last f,
    )
    go (crashes before after r e) = omega (
      arith,
      ap (sum_by outstanding) e,
      sum_by-append outstanding before (r ∷ after),
      sum_by-append outstanding before after,
    )
    go starts = omega arith
    go restarts = omega (
      arith,
      v.bucket.present,
      mul_mono (to_nat rate) c.tenant.bucket.last c.clock v.bucket.present,
    )

Reach-NoGain :
    {cfg : Config} {rate : ℤ} {max_cost : ℕ} {c d : Cluster}
    → Reach cfg rate max_cost c d
    → IsValid cfg rate max_cost c
    → NoGain rate c d
Reach-NoGain here v = omega arith
Reach-NoGain (next r s) v = omega (arith, Reach-NoGain r v, Step-NoGain s (Reach-IsValid r v))

-- Over any run of the cluster, from any state that satisfies the invariant, with requests of any
-- cost up to `max_cost`, lost calls and answers, crashes of workers and restarts of the coordinator:
-- what all workers together admit is at most what they held at the start, one burst, the rate times
-- the time since the bucket's last refill before the start, and one more burst for each restart.
pub admitted_within_limit :
    {cfg : Config} {rate : ℤ} {max_cost : ℕ} {c d : Cluster}
    → IsValid cfg rate max_cost c
    → Reach cfg rate max_cost c d
    → token * d.admitted
      ≤ token * (c.admitted + all_outstanding c.replicas)
        + burst rate * (1 + (d.restarts - c.restarts))
        + to_nat rate * (d.clock - c.tenant.bucket.last)
admitted_within_limit {cfg} {rate} {max_cost} {c} {d} v r =
    let g = Reach-NoGain r v in
    omega (
      arith,
      g,
      (Reach-IsValid r v).bucket.present,
      v.bucket.within,
      mul-sub (to_nat rate) c.restarts d.restarts g.later,
      mul-sub (to_nat rate) c.tenant.bucket.last d.clock
          (omega (arith, g.forward, (Reach-IsValid r v).bucket.present)),
      mul_mono (to_nat rate) d.tenant.bucket.last d.clock (Reach-IsValid r v).bucket.present,
    )

-- What the workers of a valid cluster hold is at most a lease each, and what a pool may hold when a
-- renewal starts: one token less than the costliest request or than a fifth of the lease.
pub all_outstanding-le :
    (max_cost lease : ℕ) (rs : List Replica)
    → All (Flight.IsValid max_cost lease) rs
    → all_outstanding rs ≤ length rs * (slack max_cost lease + lease)
all_outstanding-le max_cost lease [] h = omega arith
all_outstanding-le max_cost lease (r ∷ rs) h =
    grind (arith, outstanding-le r h.0, all_outstanding-le max_cost lease rs h.1)

-- The bound in the number of workers at the start of the window: the assertion that every scenario
-- of the load generator makes, with the slack that the code really needs.
pub admitted_in_window :
    {cfg : Config} {rate : ℤ} {max_cost : ℕ} {c d : Cluster}
    → IsValid cfg rate max_cost c
    → Reach cfg rate max_cost c d
    → let size = to_nat cfg.lease.size in
      token * (d.admitted - c.admitted)
      ≤ token * (length c.replicas * (slack max_cost size + size))
        + burst rate * (1 + (d.restarts - c.restarts))
        + to_nat rate * (d.clock - c.tenant.bucket.last)
admitted_in_window {cfg} {rate} {max_cost} {c} {d} v r =
    let size : ℕ = to_nat cfg.lease.size in
    omega (
      arith,
      admitted_within_limit v r,
      mul_mono token (all_outstanding c.replicas) (length c.replicas * (slack max_cost size + size))
          (all_outstanding-le max_cost size c.replicas v.workers),
    )

-- A cluster that starts at `now` and, whatever its workers, calls and crashes, runs to a state `d`,
-- has admitted at most one burst, one more for each restart of the coordinator, and the rate times
-- the time since the start.
pub admitted_since_start :
    (cfg : Config) (rate : ℤ) (max_cost now : ℕ) {d : Cluster}
    → Reach cfg rate max_cost (new_cluster rate now) d
    → token * d.admitted ≤ burst rate * (1 + d.restarts) + to_nat rate * (d.clock - now)
unfolding new_tenant Bucket.new
admitted_since_start cfg rate max_cost now {d} r =
    let h : token * d.admitted
        ≤ token * 0 + burst rate * (1 + (d.restarts - 0)) + to_nat rate * (d.clock - now) =
      admitted_within_limit (new_cluster-IsValid cfg rate max_cost now) r in
    ground (arith, ap (λ (n : ℕ). burst rate * (1 + n)) (sub-zero d.restarts))
