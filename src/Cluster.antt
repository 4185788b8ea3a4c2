-- ===== src/Cluster.antt =====
-- The coordinator and the workers together, for one tenant: every way in which requests, renewals,
-- failures, crashes and the clock interleave.
-- A step is one critical section, one handled lease call, or one thing that the environment does.
-- A clock reading may be old: a step may use any time up to the present. A lease call that is lost
-- on the way, or whose answer is lost, ends as a failed call; the tokens of a lost answer are gone.
pub mod Invariant
pub mod Limit
mod Examples
use ratelimiter.Base.{ℕ, suc, ◌+◌, ◌*◌, ◌≤◌, ◌<◌, ◌≡◌, List, [], ◌∷◌, ◌++◌, some, All}
use ratelimiter.Base.Int.{ℤ, to_nat}
use ratelimiter.Config.{Config}
use ratelimiter.Coordinator.{TenantState, LeaseResponse, new_tenant, lease_tenant}
use ratelimiter.Worker.Pool.{Reply, failed}
use ratelimiter.Worker.Pool.Admission.{spent, spent_at}
use ratelimiter.Worker.Leaser.{response, lease}
use ratelimiter.Worker.Replica.{
  Replica, Call, asked, answered, Waiter, new_replica, check, wake, give_up, renewed,
}
use ratelimiter.Worker.Replica.Flight.{Has}

-- `admitted` is the sum of the costs of all requests admitted so far, by workers that have crashed
-- too, and `restarts` the number of times that the coordinator has started anew.
pub record Cluster : Type 0 where
  pub clock : ℕ
  pub tenant : TenantState
  pub replicas : List Replica
  pub admitted : ℕ
  pub restarts : ℕ

-- What a worker makes of the coordinator's response.
unfoldable pub reply_of : LeaseResponse → Reply
reply_of resp = lease (
    response 200 (
      some (record {
        granted = resp.granted;
        ttl_ms = resp.ttl_ms;
        retry_after_ms = resp.retry_after_ms;
      })))

-- A step of the cluster, for a configuration, the tenant's rate, and requests of at most `max_cost`.
pub data Step (cfg : Config) (rate : ℤ) (max_cost : ℕ) (c : Cluster) : Cluster → Type 0 where
  -- Time passes.
  advance : (d : ℕ) → Step cfg rate max_cost c (record c { clock = c.clock + d })
  -- A request arrives at a worker, up to its answer or its wait.
  request :
      (before after : List Replica) (r : Replica) (now cost : ℕ)
      → c.replicas ≡ before ++ r ∷ after
      → now ≤ c.clock
      → 0 < cost
      → cost ≤ max_cost
      → Step cfg rate max_cost c (record c {
        replicas = before ++ (check r now cost).0 ∷ after;
        admitted = c.admitted + spent_at (check r now cost).1 cost;
      })
  -- A waiting request goes on, since its channel was closed.
  wakes :
      (before after : List Replica) (r : Replica) (first last : List Waiter) (w : Waiter) (now : ℕ)
      → c.replicas ≡ before ++ r ∷ after
      → r.waiting ≡ first ++ w ∷ last
      → Has w.chan r.closed
      → now ≤ c.clock
      → Step cfg rate max_cost c (record c {
        replicas = before ++ (wake r now w.cost (first ++ last)).0 ∷ after;
        admitted = c.admitted + spent (wake r now w.cost (first ++ last)).1 w.cost;
      })
  -- A waiting request gives up.
  times_out :
      (before after : List Replica) (r : Replica) (first last : List Waiter) (w : Waiter)
      → c.replicas ≡ before ++ r ∷ after
      → r.waiting ≡ first ++ w ∷ last
      → Step cfg rate max_cost c
          (record c { replicas = before ++ give_up r w.cost (first ++ last) ∷ after })
  -- The coordinator handles a lease call, and its response is on the way.
  leases :
      (before after : List Replica) (r : Replica) (first last : List Call) (now : ℕ)
      → c.replicas ≡ before ++ r ∷ after
      → r.calls ≡ first ++ asked ∷ last
      → now ≤ c.clock
      → Step cfg rate max_cost c (record c {
        tenant = (lease_tenant cfg c.tenant now).0;
        replicas =
            before
            ++ (record r {
              calls = first ++ answered (reply_of (lease_tenant cfg c.tenant now).1) ∷ last;
            })
              ∷ after;
      })
  -- The coordinator handles a lease call, and its response is lost.
  loses :
      (before after : List Replica) (r : Replica) (first last : List Call) (now : ℕ)
      → c.replicas ≡ before ++ r ∷ after
      → r.calls ≡ first ++ asked ∷ last
      → now ≤ c.clock
      → Step cfg rate max_cost c (record c {
        tenant = (lease_tenant cfg c.tenant now).0;
        replicas = before ++ (record r { calls = first ++ answered failed ∷ last }) ∷ after;
      })
  -- The coordinator handles a lease call that nobody waits for any more: its worker has given it up,
  -- or has crashed.
  strays :
      (now : ℕ)
      → now ≤ c.clock
      → Step cfg rate max_cost c (record c { tenant = (lease_tenant cfg c.tenant now).0 })
  -- A lease call fails, before or after it was answered.
  fails :
      (before after : List Replica) (r : Replica) (first last : List Call) (call : Call)
      → c.replicas ≡ before ++ r ∷ after
      → r.calls ≡ first ++ call ∷ last
      → Step cfg rate max_cost c (record c {
        replicas = before ++ (record r { calls = first ++ answered failed ∷ last }) ∷ after;
      })
  -- A renewal ends.
  renews :
      (before after : List Replica) (r : Replica) (first last : List Call) (reply : Reply)
      (now draw : ℕ)
      → c.replicas ≡ before ++ r ∷ after
      → r.calls ≡ first ++ answered reply ∷ last
      → now ≤ c.clock
      → Step cfg rate max_cost c
          (record c { replicas = before ++ renewed r now reply draw (first ++ last) ∷ after })
  -- A worker crashes.
  crashes :
      (before after : List Replica) (r : Replica)
      → c.replicas ≡ before ++ r ∷ after
      → Step cfg rate max_cost c (record c { replicas = before ++ after })
  -- A worker starts.
  starts : Step cfg rate max_cost c (record c { replicas = new_replica ∷ c.replicas })
  -- The coordinator starts anew, after a crash, with a full bucket.
  restarts :
      Step cfg rate max_cost c
        (record c { tenant = new_tenant c.clock rate; restarts = suc c.restarts })

-- A sequence of steps.
pub data Reach (cfg : Config) (rate : ℤ) (max_cost : ℕ) (c : Cluster) : Cluster → Type 0 where
  here : Reach cfg rate max_cost c c
  next :
      {d e : Cluster}
      → Reach cfg rate max_cost c d
      → Step cfg rate max_cost d e
      → Reach cfg rate max_cost c e

-- A cluster that starts at `now`, with no worker yet.
abbrev pub new_cluster : ℤ → ℕ → Cluster
new_cluster rate now = record {
  clock = now;
  tenant = new_tenant now rate;
  replicas = [];
  admitted = 0;
  restarts = 0;
}
