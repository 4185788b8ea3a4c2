-- ===== src/Cluster/Invariant.antt =====
-- What holds of every cluster that is reached: the bucket within its capacity and not ahead of the
-- clock, and every worker's invariant.
use ratelimiter.Base.{ℕ, ◌*◌, ◌≤◌, ◌≡◌, ◌∷◌, ◌++◌, arith, All, All-at, All-replace, All-remove}
use ratelimiter.Base.Int.{ℤ, to_nat}
use ratelimiter.Bucket
use ratelimiter.Bucket.Bounds.{refill-Refilled, take_up_to_lem}
use ratelimiter.Config.{Config}
use ratelimiter.Coordinator.{TenantState, new_tenant, lease_tenant}
use ratelimiter.Coordinator.Accounts.{lease_tenant-bucket, lease_tenant_grants}
use ratelimiter.Worker.Pool.{failed}
use ratelimiter.Worker.Pool.Renewal.{IsLease}
use ratelimiter.Worker.Leaser.{lease, grant_of}
use ratelimiter.Worker.Replica.{Replica, asked, answered, check, wake, give_up, renewed}
use ratelimiter.Worker.Replica.Flight
use ratelimiter.Worker.Replica.Flight.{
  outstanding, outstanding-le, check-IsValid, new_replica-IsValid,
}
use ratelimiter.Worker.Replica.Steps.{wake-IsValid, give_up-IsValid, call-IsValid, renewed-IsValid}
use ratelimiter.Cluster.{
  Cluster, Step, advance, request, wakes, times_out, leases, loses, strays, fails, renews, crashes,
  starts, restarts, Reach, here, next, reply_of, new_cluster,
}

-- One second of a tenant's rate, in units: the capacity of its bucket.
abbrev pub burst : ℤ → ℕ
burst rate = to_nat rate * 1_000_000_000

pub record IsBucket (rate : ℤ) (clock : ℕ) (ts : TenantState) : Type 0 where
  pub same_rate : ts.bucket.rate ≡ to_nat rate
  pub same_cap : ts.bucket.cap ≡ burst rate
  pub within : ts.bucket.tokens ≤ burst rate
  pub present : ts.bucket.last ≤ clock

pub record IsValid (cfg : Config) (rate : ℤ) (max_cost : ℕ) (c : Cluster) : Type 0 where
  pub bucket : IsBucket rate c.clock c.tenant
  pub workers : All (Flight.IsValid max_cost (to_nat cfg.lease.size)) c.replicas

new_tenant-IsBucket : (rate : ℤ) (clock : ℕ) → IsBucket rate clock (new_tenant clock rate)
unfolding new_tenant Bucket.new
new_tenant-IsBucket rate clock = omega arith

lease_tenant-IsBucket :
    {rate : ℤ} {clock : ℕ} (cfg : Config) (ts : TenantState) (now : ℕ)
    → now ≤ clock
    → IsBucket rate clock ts
    → IsBucket rate clock (lease_tenant cfg ts now).0
lease_tenant-IsBucket cfg ts now h v = ground (
  arith,
  lease_tenant-bucket cfg ts now,
  take_up_to_lem ts.bucket (to_nat cfg.lease.size) now,
  refill-Refilled ts.bucket now,
)

-- What the coordinator answers is at most a lease.
reply_of-IsLease :
    (cfg : Config) (ts : TenantState) (now : ℕ)
    → IsLease (to_nat cfg.lease.size) (reply_of (lease_tenant cfg ts now).1)
unfolding reply_of lease grant_of
reply_of-IsLease cfg ts now = omega (arith, (lease_tenant_grants cfg ts now).0)

-- Every step keeps the invariant.
pub Step-IsValid :
    {cfg : Config} {rate : ℤ} {max_cost : ℕ} {c d : Cluster}
    → Step cfg rate max_cost c d
    → IsValid cfg rate max_cost c
    → IsValid cfg rate max_cost d
Step-IsValid {cfg} {rate} {max_cost} {c} step v = go step
  where
    Fine : Replica → Type 0
    Fine = Flight.IsValid max_cost (to_nat cfg.lease.size)

    go : {d : Cluster} → Step cfg rate max_cost c d → IsValid cfg rate max_cost d
    go (advance t) = record { bucket = omega (arith, v.bucket); workers = v.workers }
    go (request before after r now cost e h k l) = record {
      bucket = v.bucket;
      workers =
          All-replace Fine before after r (check r now cost).0 e v.workers
            (check-IsValid r now cost l k (All-at Fine before after r e v.workers));
    }
    go (wakes before after r first last w now e f g h) = record {
      bucket = v.bucket;
      workers =
          All-replace Fine before after r (wake r now w.cost (first ++ last)).0 e v.workers
            (wake-IsValid r now first last w f (All-at Fine before after r e v.workers));
    }
    go (times_out before after r first last w e f) = record {
      bucket = v.bucket;
      workers =
          All-replace Fine before after r (give_up r w.cost (first ++ last)) e v.workers
            (give_up-IsValid r first last w f (All-at Fine before after r e v.workers));
    }
    go (leases before after r first last now e f h) = record {
      bucket = lease_tenant-IsBucket cfg c.tenant now h v.bucket;
      workers =
          All-replace Fine before after r
            (record r {
              calls = first ++ answered (reply_of (lease_tenant cfg c.tenant now).1) ∷ last;
            })
            e v.workers
            (call-IsValid r first last asked (answered (reply_of (lease_tenant cfg c.tenant now).1))
              f (reply_of-IsLease cfg c.tenant now) (All-at Fine before after r e v.workers));
    }
    go (loses before after r first last now e f h) = record {
      bucket = lease_tenant-IsBucket cfg c.tenant now h v.bucket;
      workers =
          All-replace Fine before after r (record r { calls = first ++ answered failed ∷ last }) e
            v.workers
            (call-IsValid r first last asked (answered failed) f tt
              (All-at Fine before after r e v.workers));
    }
    go (strays now h) = record {
      bucket = lease_tenant-IsBucket cfg c.tenant now h v.bucket;
      workers = v.workers;
    }
    go (fails before after r first last call e f) = record {
      bucket = v.bucket;
      workers =
          All-replace Fine before after r (record r { calls = first ++ answered failed ∷ last }) e
            v.workers
            (call-IsValid r first last call (answered failed) f tt
              (All-at Fine before after r e v.workers));
    }
    go (renews before after r first last reply now draw e f h) = record {
      bucket = v.bucket;
      workers =
          All-replace Fine before after r (renewed r now reply draw (first ++ last)) e v.workers (
            renewed-IsValid r now reply draw first last f (All-at Fine before after r e v.workers));
    }
    go (crashes before after r e) = record {
      bucket = v.bucket;
      workers = All-remove Fine before after r e v.workers;
    }
    go starts = record {
      bucket = v.bucket;
      workers = (new_replica-IsValid max_cost (to_nat cfg.lease.size), v.workers);
    }
    go restarts = record { bucket = new_tenant-IsBucket rate c.clock; workers = v.workers }

-- Every cluster that is reached from a valid one is valid: its bucket has the tenant's rate, holds at
-- most one second of it and is not ahead of the clock; every worker has at most one renewal in
-- flight, and exactly if its pool says so, holds at most what a pool may hold, and every request that
-- waits does so on a channel that is closed or that the renewal in flight will close.
pub Reach-IsValid :
    {cfg : Config} {rate : ℤ} {max_cost : ℕ} {c d : Cluster}
    → Reach cfg rate max_cost c d
    → IsValid cfg rate max_cost c
    → IsValid cfg rate max_cost d
Reach-IsValid here v = v
Reach-IsValid (next r s) v = Step-IsValid s (Reach-IsValid r v)

pub new_cluster-IsValid :
    (cfg : Config) (rate : ℤ) (max_cost now : ℕ) → IsValid cfg rate max_cost (new_cluster rate now)
new_cluster-IsValid cfg rate max_cost now = record {
  bucket = new_tenant-IsBucket rate now;
  workers = tt;
}
