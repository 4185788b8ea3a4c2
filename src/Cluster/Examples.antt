-- ===== src/Cluster/Examples.antt =====
-- The theorems on the cluster at a run: a worker starts, a request finds its pool empty and waits, the
-- coordinator grants a lease, the request is admitted, and both coordinator and worker go down.
use ratelimiter.Base.{◌+◌, ◌-◌, ◌*◌, ◌≤◌, ◌≡◌, refl, [], ◌∷◌, inl, arith, length}
use ratelimiter.Base.Int.{pos, to_nat}
use ratelimiter.Bucket
use ratelimiter.Bucket.{token, take_up_to, next_token_in}
use ratelimiter.Config.{Config}
use ratelimiter.Coordinator.{new_tenant, lease_tenant}
use ratelimiter.Worker.Leaser.{lease}
use ratelimiter.Worker.Pool.{Reply, begin, resume, finish}
use ratelimiter.Worker.Pool.Renewal.{slack}
use ratelimiter.Worker.Replica.{Replica, answered, new_replica, settle, check, wake, renewed, close}
use ratelimiter.Cluster.{
  Cluster, advance, request, wakes, leases, renews, crashes, starts, restarts, Reach, here, next,
  reply_of, new_cluster,
}
use ratelimiter.Cluster.Invariant.{IsValid, burst, Step-IsValid, Reach-IsValid, new_cluster-IsValid}
use ratelimiter.Cluster.Limit.{admitted_in_window}

abbrev cfg : Config
cfg = record {
  lease = record { size = pos 10; duration_ms = pos 2000 };
  tenants = ("a", pos 100_000) ∷ [];
}

-- A state that is reached from a start at time 0, with requests of at most 3 tokens.
record Run : Type 0 where
  last : Cluster
  reach : Reach cfg (pos 100_000) 3 (new_cluster (pos 100_000) 0) last

-- The worker after the request, with its lease answered, and after the renewal.
asking : Replica
asking = (check new_replica 900 3).0

reply : Reply
reply = reply_of (lease_tenant cfg (new_tenant 0 (pos 100_000)) 1_000).1

replied : Replica
unfolding asking
replied = record asking { calls = answered reply ∷ [] }

refilled : Replica
unfolding replied
refilled = renewed replied 1_000 reply 0 []

begun : Run
unfolding asking
begun = record {
  last = _;
  reach =
      next (next (next here starts) (advance 1_000))
        (request [] [] new_replica 900 3 refl (omega arith) (omega arith) (omega arith));
}

leased : Run
unfolding begun asking check settle begin replied reply
leased = record {
  last = _;
  reach = next begun.reach (leases [] [] asking [] [] 1_000 refl refl (omega arith));
}

admitted : Run
unfolding leased refilled reply check settle begin renewed close finish lease_tenant take_up_to
    next_token_in new_tenant Bucket.new reply_of lease
admitted = record {
  last = _;
  reach =
      next (next leased.reach (renews [] [] replied [] [] reply 1_000 0 refl refl (omega arith))) (
        wakes [] [] refilled [] [] (record { chan = 0; cost = 3 }) 1_000 refl refl (inl refl)
          (omega arith));
}

-- The coordinator restarts, and the worker crashes.
ended : Run
unfolding admitted
ended = record { last = _; reach = next (next admitted.reach restarts) (crashes [] [] _ refl) }

three_admitted : ended.last.admitted ≡ 3
unfolding ended refilled reply check settle begin renewed close finish lease_tenant take_up_to
    next_token_in new_tenant Bucket.new reply_of lease wake resume
three_admitted = refl

-- From the answer of the coordinator on, with ten tokens on the way to the worker.
record Window : Type 0 where
  last : Cluster
  reach : Reach cfg (pos 100_000) 3 leased.last last

window : Window
unfolding leased refilled reply check settle begin renewed close finish lease_tenant take_up_to
    next_token_in new_tenant Bucket.new reply_of lease
window = record {
  last = _;
  reach = next (next here (renews [] [] replied [] [] reply 1_000 0 refl refl (omega arith))) (
      wakes [] [] refilled [] [] (record { chan = 0; cost = 3 }) 1_000 refl refl (inl refl)
        (omega arith));
}

admitted_in_window_example :
    let c = leased.last in
    let d = window.last in
    token * (d.admitted - c.admitted)
    ≤ token * (length c.replicas * (slack 3 10 + 10))
      + burst (pos 100_000) * (1 + (d.restarts - c.restarts))
      + to_nat (pos 100_000) * (d.clock - c.tenant.bucket.last)
admitted_in_window_example =
    admitted_in_window (Reach-IsValid leased.reach (new_cluster-IsValid cfg (pos 100_000) 3 0))
      window.reach

Reach-IsValid_example : IsValid cfg (pos 100_000) 3 admitted.last
Reach-IsValid_example = Reach-IsValid admitted.reach (new_cluster-IsValid cfg (pos 100_000) 3 0)

Step-IsValid_example :
    IsValid cfg
      (pos 100_000)
      3
      (record (new_cluster (pos 100_000) 0) { replicas = new_replica ∷ [] })
Step-IsValid_example = Step-IsValid starts (new_cluster-IsValid cfg (pos 100_000) 3 0)
