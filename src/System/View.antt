-- ===== src/System/View.antt =====
-- The system as one tenant sees it: on each worker the pool, the counters and the goroutines of the
-- tenant, which every operation of a worker for that tenant changes as the model of one tenant does.
pub mod Sections
pub mod Others
pub mod Budget
use ratelimiter.Base.{
  ℕ, suc, ◌+◌, ◌≡◌, ◌≢◌, refl, sym, ap, ◌∙◌, String, str_eq, eq_iff, List, [], ◌∷◌, ◌++◌, map,
  Option, none, some, Bool, true, false, ◌==◌, arith, if◌then◌else◌,
}
use ratelimiter.Base.Int.{ℤ}
use ratelimiter.Base.Dict.{lookup, insert, lookup-insert_self}
use ratelimiter.Worker.Pool.{
  Pool, Reply, Decision, admit, reject, unknown, Outcome, decided, waits, effective_cost, begin,
  resume, finish,
}
use ratelimiter.Worker.Pool.Admission.{spent, spent_at}
use ratelimiter.Worker.Replica.{
  Counters, count, Call, asked, Waiter, Replica, new_replica, settle, check, wake, give_up, close,
  renewed,
}
use ratelimiter.Worker.Limiter
use ratelimiter.Worker.Limiter.{
  Limiter, counters, check_again, check_timed_out, renew_starts, renew_ends,
}
use ratelimiter.Worker.Limiter.Isolation.{pool_of, counts_of}
use ratelimiter.Worker.Limiter.Refinement.{
  pool_of_found, counts_of_found, counters-pools, pool-counts, answer_lem, counts_of_same, counted,
  check_refines,
}
use ratelimiter.Worker.Server.{
  parse_cost, status_of, Handled, status, pending, handled, handle_check,
}
use ratelimiter.Worker.Server.Cost.{handle_check_bad}
use ratelimiter.System.Nodes.{
  Waiting, Flights, Node, new_node, set_at, hold, launch, arrive, go_on, run_out, with_calls,
  renew_ended, worth, worth_now,
}

abbrev pub held : Waiting → Waiter
held w = record { chan = w.chan; cost = effective_cost w.cost }

abbrev pub replica : Pool → Counters → Flights → Replica
replica p c fl = record {
  pool = p;
  calls = fl.calls;
  waiting = map held fl.waiting;
  closed = fl.closed;
  next_chan = fl.next_chan;
  counts = c;
}

-- What a worker is for the tenant `u`.
abbrev pub replica_at : String → Node → Replica
replica_at u n = replica (pool_of n.limiter u) (counts_of n.limiter u) (n.flights u)

pub set_at_self : {A : Type 0} (t : String) (a : A) (f : String → A) → set_at t a f t ≡ a
set_at_self t a f = ground (arith, eq_iff t t)

pub set_at_ne : {A : Type 0} (t u : String) (a : A) (f : String → A) → t ≢ u → set_at t a f u ≡ f u
set_at_ne t u a f ne = ground (arith, eq_iff t u)

pub set_at_same : {A : Type 0} (t u : String) (f : String → A) → set_at t (f t) f u ≡ f u
set_at_same t u f = ground (arith, eq_iff t u)

-- A worker that has just started is one for every tenant.
pub new_node_seen : (u : String) → replica_at u new_node ≡ new_replica
unfolding Limiter.pool counters lookup
new_node_seen u = refl

-- A node of which the pool, the counters and the goroutines of a tenant are known.
pub replica_at-eq :
    (t : String) (lm : Limiter) (fl : Flights) (f : String → Flights) {p : Pool} {c : Counters}
    → pool_of lm t ≡ p
    → counts_of lm t ≡ c
    → replica_at t (record { limiter = lm; flights = set_at t fl f }) ≡ replica p c fl
replica_at-eq t lm fl f e e' = rw (e, e', set_at_self t fl f) refl

-- One call more.
abbrev one_call : Counters → Counters
one_call c = record c { lease_calls = c.lease_calls + 1 }

pub pool_of_same :
    (lm lm' : Limiter) (t : String) → lm'.pools ≡ lm.pools → pool_of lm' t ≡ pool_of lm t
unfolding Limiter.pool
pool_of_same lm lm' t e = ground arith

renew_starts_lem :
    (lm : Limiter) (t : String)
    → (pool_of (renew_starts lm t) t ≡ pool_of lm t)
      × (counts_of (renew_starts lm t) t ≡ one_call (counts_of lm t))
unfolding renew_starts
renew_starts_lem lm t =
    let c : Counters = counts_of lm t in
    (
      pool_of_same lm
          (record (counters lm t).0 { counts = insert t (one_call c) (counters lm t).0.counts }) t
          (counters-pools lm t),
      counts_of_found _ t (lookup-insert_self t (one_call c) (counters lm t).0.counts),
    )

-- The goroutines and counters of one tenant after the first section of a request.
settle-replica :
    (p : Pool) (need : Bool) (o : Outcome) (c : Counters) (fl : Flights) (z : ℤ)
    → replica p
        (if need then one_call (counted c o (effective_cost z)) else counted c o (effective_cost z))
        (hold (if need then launch fl else fl) (handled o z))
      ≡ settle
          (if need
            then record (replica p c fl) {
              calls = asked ∷ fl.calls;
              next_chan = suc fl.next_chan;
              counts = one_call c;
            }
            else replica p c fl)
          o
          (effective_cost z)
unfolding settle handled count
settle-replica p true (decided admit) c fl z = refl
settle-replica p true (decided reject) c fl z = refl
settle-replica p true (decided unknown) c fl z = refl
settle-replica p true (waits chan) c fl z = refl
settle-replica p false (decided admit) c fl z = refl
settle-replica p false (decided reject) c fl z = refl
settle-replica p false (decided unknown) c fl z = refl
settle-replica p false (waits chan) c fl z = refl

-- A renewal that is started, or not, leaves the pool alone and is counted.
started_lem :
    (lm : Limiter) (t : String) (need : Bool)
    → (pool_of (if need then renew_starts lm t else lm) t ≡ pool_of lm t)
      × (counts_of (if need then renew_starts lm t else lm) t
          ≡ (if need then one_call (counts_of lm t) else counts_of lm t))
started_lem lm t true = renew_starts_lem lm t
started_lem lm t false = (refl, refl)

-- What `worth` counts is what the decision takes.
pub worth_lem : (d : Decision) (z : ℤ) → worth (status_of d) z ≡ spent d (effective_cost z)
unfolding status_of
worth_lem admit z = refl
worth_lem reject z = refl
worth_lem unknown z = refl

worth_now_lem :
    (o : Outcome) (query : List ℕ) (z : ℤ)
    → parse_cost query ≡ some z
    → worth_now (handled o z) query ≡ spent_at o (effective_cost z)
unfolding handled
worth_now_lem (decided d) query z e = rw (e, worth_now) (worth_lem d z)
worth_now_lem (waits chan) query z e = refl

pub handle_check_good :
    (lm : Limiter) (t : String) (query : List ℕ) (now chan : ℕ) (z : ℤ)
    → parse_cost query ≡ some z
    → handle_check lm t query now chan ≡ (
      (Limiter.check lm t z now chan).0,
      (Limiter.check lm t z now chan).1,
      handled (Limiter.check lm t z now chan).2 z,
    )
unfolding handle_check
handle_check_good lm t query now chan z h = ground arith

-- A request with a good cost is `check` of its tenant; what is credited is what it takes.
pub arrive_lem :
    (n : Node) (t : String) (query : List ℕ) (now : ℕ) (z : ℤ)
    → parse_cost query ≡ some z
    → (replica_at t (arrive n t query now).0 ≡ (check (replica_at t n) now (effective_cost z)).0)
      × (worth_now (arrive n t query now).1 query
          ≡ spent_at (check (replica_at t n) now (effective_cost z)).1 (effective_cost z))
unfolding arrive check
arrive_lem n t query now z h =
    let fl : Flights = n.flights t in
    let c : ℕ = effective_cost z in
    let ran = check_refines n.limiter t z now fl.next_chan in
    let (p, need, o) = begin (pool_of n.limiter t) now c fl.next_chan in
    let lm : Limiter = (Limiter.check n.limiter t z now fl.next_chan).0 in
    let started = started_lem lm t need in
    rw (handle_check_good n.limiter t query now fl.next_chan z h, ran.1, ran.2)
      (
        replica_at-eq t (if need then renew_starts lm t else lm)
              (hold (if need then launch fl else fl) (handled o z)) n.flights (started.0 ∙ ran.0)
              (started.1 ∙ ap (λ (k : Counters). if need then one_call k else k) ran.3)
            ∙ settle-replica p need o (counts_of n.limiter t) fl z,
        worth_now_lem o query z h,
      )

-- A request with a bad cost changes nothing.
pub arrive_bad :
    (n : Node) (t u : String) (query : List ℕ) (now : ℕ)
    → parse_cost query ≡ none
    → (replica_at u (arrive n t query now).0 ≡ replica_at u n)
      × (worth_now (arrive n t query now).1 query ≡ 0)
unfolding arrive
arrive_bad n t u query now h =
    rw (handle_check_bad n.limiter t query now (n.flights t).next_chan h) (
      ap (λ fl. replica (pool_of n.limiter u) (counts_of n.limiter u) fl)
          (set_at_same t u n.flights),
      rw (h, worth_now) refl,
    )
