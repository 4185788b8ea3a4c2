-- ===== src/System/View/Others.antt =====
-- What a tenant sees of the operations for another one: nothing.
use ratelimiter.Base.{
  ℕ, ◌≡◌, ◌≢◌, refl, ◌∙◌, String, List, Bool, true, false, inl, inr, Option-cases, if◌then◌else◌,
  arith,
}
use ratelimiter.Base.Int.{ℤ}
use ratelimiter.Worker.Pool.{Reply}
use ratelimiter.Worker.Replica.{Call}
use ratelimiter.Worker.Limiter
use ratelimiter.Worker.Limiter.{Limiter, counters, renew_starts}
use ratelimiter.Worker.Limiter.Isolation.{
  Op, checks, checks_again, times_out, renewal_starts, renewal_ends, run_op, run_op_isolated,
  pool_of, counts_of,
}
use ratelimiter.Worker.Server.{parse_cost}
use ratelimiter.System.Nodes.{
  Waiting, Flights, Node, set_at, arrive, go_on, run_out, with_calls, renew_ended,
}
use ratelimiter.System.View.{replica_at, set_at_ne, arrive_bad, handle_check_good}

module _ {t u : String} (ne : t ≢ u) where
  pool_of-op : (lm : Limiter) (op : Op) → pool_of (run_op lm t op) u ≡ pool_of lm u
  unfolding Limiter.pool
  pool_of-op lm op = ground (arith, (run_op_isolated lm t u op ne).0)

  counts_of-op : (lm : Limiter) (op : Op) → counts_of (run_op lm t op) u ≡ counts_of lm u
  unfolding counters
  counts_of-op lm op = ground (arith, (run_op_isolated lm t u op ne).1)

  -- A node that differs in what an operation for `t` changes.
  other-replica :
      (n : Node) (lm : Limiter) (fl : Flights)
      → pool_of lm u ≡ pool_of n.limiter u
      → counts_of lm u ≡ counts_of n.limiter u
      → replica_at u (record { limiter = lm; flights = set_at t fl n.flights }) ≡ replica_at u n
  other-replica n lm fl p c = rw (p, c, set_at_ne t u fl n.flights ne) refl

  op-replica :
      (n : Node) (op : Op) (fl : Flights)
      → replica_at u (record { limiter = run_op n.limiter t op; flights = set_at t fl n.flights })
        ≡ replica_at u n
  op-replica n op fl =
      other-replica n (run_op n.limiter t op) fl (pool_of-op n.limiter op)
        (counts_of-op n.limiter op)

  started_other :
      (lm : Limiter) (need : Bool)
      → (pool_of (if need then renew_starts lm t else lm) u ≡ pool_of lm u)
        × (counts_of (if need then renew_starts lm t else lm) u ≡ counts_of lm u)
  unfolding run_op
  started_other lm true = (pool_of-op lm renewal_starts, counts_of-op lm renewal_starts)
  started_other lm false = (refl, refl)

  pub arrive_other :
      (n : Node) (query : List ℕ) (now : ℕ) → replica_at u (arrive n t query now).0 ≡ replica_at u n
  unfolding arrive run_op
  arrive_other n query now = elim (Option-cases (parse_cost query)) [
    | inl e ↦ (arrive_bad n t u query now e).0
    | inr (z, e) ↦
        let chan : ℕ = (n.flights t).next_chan in
        let (lm, need, o) = Limiter.check n.limiter t z now chan in
        let started = started_other lm need in
        let op = checks z now chan in
        rw (handle_check_good n.limiter t query now chan z e) (
          other-replica n (if need then renew_starts lm t else lm) _
            (started.0 ∙ pool_of-op n.limiter op) (started.1 ∙ counts_of-op n.limiter op))
  ]

  pub go_on_other :
      (n : Node) (z : ℤ) (others : List Waiting) (now : ℕ)
      → replica_at u (go_on n t z others now).0 ≡ replica_at u n
  unfolding go_on run_op
  go_on_other n z others now = op-replica n (checks_again z now) _

  pub run_out_other :
      (n : Node) (z : ℤ) (others : List Waiting)
      → replica_at u (run_out n t z others).0 ≡ replica_at u n
  unfolding run_out run_op
  run_out_other n z others = op-replica n (times_out z) _

  pub with_calls_other :
      (n : Node) (calls : List Call) → replica_at u (with_calls n t calls) ≡ replica_at u n
  with_calls_other n calls = other-replica n n.limiter _ refl refl

  pub renew_ended_other :
      (n : Node) (now : ℕ) (reply : Reply) (draw : ℕ) (others : List Call)
      → replica_at u (renew_ended n t now reply draw others) ≡ replica_at u n
  unfolding renew_ended run_op
  renew_ended_other n now reply draw others = op-replica n (renewal_ends now reply draw) _
