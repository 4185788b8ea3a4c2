-- ===== src/Worker/Limiter/Isolation.antt =====
-- Tenants do not touch one another: an operation on a limiter is that of one tenant's pool and
-- counters.
use ratelimiter.Base.{ℕ, ◌≡◌, refl, ◌≢◌, String, inl, inr, Option-cases, ◌∙◌}
use ratelimiter.Base.Int.{ℤ}
use ratelimiter.Base.Dict.{lookup, insert, lookup-insert_ne}
use ratelimiter.Worker.Pool.{
  Pool, empty_pool, Reply, Decision, admit, reject, unknown, Outcome, decided, waits,
  effective_cost,
}
use ratelimiter.Worker.Replica.{Counters, no_counts}
use ratelimiter.Worker.Limiter.{
  Limiter, pool, counters, answer, settle_at, check, check_again, check_timed_out, renew_starts,
  renew_ends,
}

-- A tenant's pool and counters, as they are or as they would be made.
abbrev pub pool_of : Limiter → String → Pool
pool_of lm t = (pool lm t).1

abbrev pub counts_of : Limiter → String → Counters
counts_of lm t = (counters lm t).1

-- The operations of a limiter on one tenant, with their arguments.
pub data Op : Type 0 where
  checks : (cost : ℤ) (now chan : ℕ) → Op
  checks_again : (cost : ℤ) (now : ℕ) → Op
  times_out : (cost : ℤ) → Op
  renewal_starts : Op
  renewal_ends : (now : ℕ) → Reply → (draw : ℕ) → Op

unfoldable pub run_op : Limiter → String → Op → Limiter
run_op lm t (checks cost now chan) = (check lm t cost now chan).0
run_op lm t (checks_again cost now) = (check_again lm t cost now).0
run_op lm t (times_out cost) = (check_timed_out lm t cost).0
run_op lm t renewal_starts = renew_starts lm t
run_op lm t (renewal_ends now reply draw) = (renew_ends lm t now reply draw).0

-- Another tenant's entries in two limiters are the same.
record SameAt (u : String) (lm lm' : Limiter) : Type 0 where
  pools : lookup u lm'.pools ≡ lookup u lm.pools
  counts : lookup u lm'.counts ≡ lookup u lm.counts

SameAt-trans : {u : String} {a b c : Limiter} → SameAt u a b → SameAt u b c → SameAt u a c
SameAt-trans h k = record { pools = k.pools ∙ h.pools; counts = k.counts ∙ h.counts }

module _ {t u : String} (ne : t ≢ u) (lm : Limiter) where
  set_pool-SameAt : (p : Pool) → SameAt u lm (record lm { pools = insert t p lm.pools })
  set_pool-SameAt p = record { pools = lookup-insert_ne t u p lm.pools ne; counts = refl }

  set_counts-SameAt : (c : Counters) → SameAt u lm (record lm { counts = insert t c lm.counts })
  set_counts-SameAt c = record { pools = refl; counts = lookup-insert_ne t u c lm.counts ne }

  pool-SameAt : SameAt u lm (pool lm t).0
  unfolding pool
  pool-SameAt = elim (Option-cases (lookup t lm.pools)) [
    | inl e ↦ rw (e, pool) (set_pool-SameAt empty_pool)
    | inr (p, e) ↦ rw (e, pool) (record { pools = refl; counts = refl })
  ]

  counters-SameAt : SameAt u lm (counters lm t).0
  unfolding counters
  counters-SameAt = elim (Option-cases (lookup t lm.counts)) [
    | inl e ↦ rw (e, counters) (set_counts-SameAt no_counts)
    | inr (c, e) ↦ rw (e, counters) (record { pools = refl; counts = refl })
  ]

module _ {t u : String} (ne : t ≢ u) where
  count_in :
      (lm : Limiter) (c : Counters)
      → SameAt u lm (record (counters lm t).0 { counts = insert t c (counters lm t).0.counts })
  count_in lm c = SameAt-trans (counters-SameAt ne lm) (set_counts-SameAt ne (counters lm t).0 c)

  answer-SameAt : (lm : Limiter) (d : Decision) (cost : ℕ) → SameAt u lm (answer lm t d cost)
  unfolding answer
  answer-SameAt lm admit cost = count_in lm _
  answer-SameAt lm reject cost = count_in lm _
  answer-SameAt lm unknown cost = record { pools = refl; counts = refl }

  settle_at-SameAt : (lm : Limiter) (o : Outcome) (cost : ℕ) → SameAt u lm (settle_at lm t o cost)
  unfolding settle_at
  settle_at-SameAt lm (decided d) cost = answer-SameAt lm d cost
  settle_at-SameAt lm (waits chan) cost = record { pools = refl; counts = refl }

  pool_in :
      (lm : Limiter) (p : Pool)
      → SameAt u lm (record (pool lm t).0 { pools = insert t p (pool lm t).0.pools })
  pool_in lm p = SameAt-trans (pool-SameAt ne lm) (set_pool-SameAt ne (pool lm t).0 p)

  run_op-SameAt : (lm : Limiter) (op : Op) → SameAt u lm (run_op lm t op)
  unfolding run_op check check_again check_timed_out renew_starts renew_ends
  run_op-SameAt lm (checks cost now chan) =
      SameAt-trans (pool_in lm _) (settle_at-SameAt _ _ (effective_cost cost))
  run_op-SameAt lm (checks_again cost now) =
      SameAt-trans (pool_in lm _) (answer-SameAt _ _ (effective_cost cost))
  run_op-SameAt lm (times_out cost) = answer-SameAt lm reject (effective_cost cost)
  run_op-SameAt lm renewal_starts = count_in lm _
  run_op-SameAt lm (renewal_ends now reply draw) = SameAt-trans (pool_in lm _) (count_in _ _)

-- No operation for one tenant changes the pool or the counters of another.
pub run_op_isolated :
    (lm : Limiter) (t u : String) (op : Op)
    → t ≢ u
    → (lookup u (run_op lm t op).pools ≡ lookup u lm.pools)
      × (lookup u (run_op lm t op).counts ≡ lookup u lm.counts)
run_op_isolated lm t u op ne = let s = run_op-SameAt ne lm op in (s.pools, s.counts)
