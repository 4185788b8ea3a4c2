-- ===== src/System/View/Sections.antt =====
-- The other operations of a worker for a tenant: a request that has waited, and the end of a renewal.
use ratelimiter.Base.{ℕ, ◌+◌, ◌≡◌, refl, ap, ◌∙◌, String, List, map, if◌then◌else◌}
use ratelimiter.Base.Int.{ℤ}
use ratelimiter.Base.Dict.{insert, lookup-insert_self}
use ratelimiter.Worker.Pool.{Pool, Reply, reject, effective_cost, resume, finish}
use ratelimiter.Worker.Pool.Admission.{spent}
use ratelimiter.Worker.Replica.{Counters, count, Call, wake, give_up, close, renewed}
use ratelimiter.Worker.Limiter.{Limiter, pool, counters, check_again, check_timed_out, renew_ends}
use ratelimiter.Worker.Limiter.Isolation.{pool_of, counts_of}
use ratelimiter.Worker.Limiter.Refinement.{
  pool_of_found, counts_of_found, counters-pools, pool-counts, answer_lem, counts_of_same,
}
use ratelimiter.System.Nodes.{Waiting, Node, go_on, run_out, with_calls, renew_ended, worth}
use ratelimiter.System.View.{held, replica_at, replica_at-eq, pool_of_same, worth_lem}

-- A pool that was written, and the counters beside it.
module _ (lm : Limiter) (t : String) (p : Pool) where
  abbrev written : Limiter
  written = record (pool lm t).0 { pools = insert t p (pool lm t).0.pools }

  counts_of-written : counts_of written t ≡ counts_of lm t
  counts_of-written = counts_of_same lm written t (pool-counts lm t)

  pool_of-written : (lm' : Limiter) → lm'.pools ≡ written.pools → pool_of lm' t ≡ p
  pool_of-written lm' e =
      pool_of_same written lm' t e
      ∙ pool_of_found written t (lookup-insert_self t p (pool lm t).0.pools)

-- A request that goes on is `wake` of its tenant; what is credited is what it takes.
pub go_on_lem :
    (n : Node) (t : String) (z : ℤ) (others : List Waiting) (now : ℕ)
    → (replica_at t (go_on n t z others now).0
        ≡ (wake (replica_at t n) now (effective_cost z) (map held others)).0)
      × (worth (go_on n t z others now).1 z
          ≡ spent
              (wake (replica_at t n) now (effective_cost z) (map held others)).1
              (effective_cost z))
unfolding go_on check_again wake
go_on_lem n t z others now =
    let c : ℕ = effective_cost z in
    let (p, d) = resume (pool_of n.limiter t) now c in
    let answered = answer_lem (written n.limiter t p) t d c in
    (
      replica_at-eq t (check_again n.limiter t z now).0 (record (n.flights t) { waiting = others })
          n.flights (pool_of-written n.limiter t p (check_again n.limiter t z now).0 answered.0)
          (answered.1 ∙ ap (λ k. count k d c) (counts_of-written n.limiter t p)),
      worth_lem d z,
    )

-- A request that gives up is `give_up` of its tenant, and is worth nothing.
pub run_out_lem :
    (n : Node) (t : String) (z : ℤ) (others : List Waiting)
    → (replica_at t (run_out n t z others).0
        ≡ give_up (replica_at t n) (effective_cost z) (map held others))
      × (worth (run_out n t z others).1 z ≡ 0)
unfolding run_out check_timed_out give_up
run_out_lem n t z others =
    let answered = answer_lem n.limiter t reject (effective_cost z) in
    (
      replica_at-eq t (check_timed_out n.limiter t z).0 (record (n.flights t) { waiting = others })
          n.flights (pool_of_same n.limiter (check_timed_out n.limiter t z).0 t answered.0)
          answered.1,
      worth_lem reject z,
    )

pub with_calls_lem :
    (n : Node) (t : String) (calls : List Call)
    → replica_at t (with_calls n t calls) ≡ record (replica_at t n) { calls = calls }
with_calls_lem n t calls =
    replica_at-eq t n.limiter (record (n.flights t) { calls = calls }) n.flights refl refl

-- The end of a renewal is `renewed` of its tenant.
pub renew_ended_lem :
    (n : Node) (t : String) (now : ℕ) (reply : Reply) (draw : ℕ) (others : List Call)
    → replica_at t (renew_ended n t now reply draw others)
      ≡ renewed (replica_at t n) now reply draw others
unfolding renew_ended renew_ends renewed
renew_ended_lem n t now reply draw others =
    let (p, chan, counted) = finish (pool_of n.limiter t) now reply draw in
    let x : Limiter = written n.limiter t p in
    let raised : Counters → Counters =
      λ c. if counted then record c { lease_errs = c.lease_errs + 1 } else c in
    let lm : Limiter = (renew_ends n.limiter t now reply draw).0 in
    replica_at-eq t lm
      (record (n.flights t) { calls = others; closed = close (n.flights t).closed chan }) n.flights
      (pool_of-written n.limiter t p lm (counters-pools x t))
      (counts_of_found lm t (lookup-insert_self t (raised (counts_of x t)) (counters x t).0.counts)
        ∙ ap raised (counts_of-written n.limiter t p))
