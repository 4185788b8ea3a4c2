-- ===== src/Worker/Limiter/Refinement.antt =====
-- At its own tenant an operation of the limiter is the critical section of the pool, counted.
use ratelimiter.Base.{ℕ, ◌≡◌, refl, String, some, arith, ◌∙◌, ap}
use ratelimiter.Base.Int.{ℤ}
use ratelimiter.Base.Dict.{lookup, insert, lookup-insert_self}
use ratelimiter.Worker.Pool.{
  Pool, Decision, admit, reject, unknown, Outcome, decided, waits, effective_cost, begin,
}
use ratelimiter.Worker.Replica.{Counters, count}
use ratelimiter.Worker.Limiter.{Limiter, pool, counters, answer, settle_at, check}
use ratelimiter.Worker.Limiter.Isolation.{pool_of, counts_of}

pub pool_of_found :
    (lm : Limiter) (t : String) {p : Pool} → lookup t lm.pools ≡ some p → pool_of lm t ≡ p
unfolding pool
pool_of_found lm t e = ground arith

pub counts_of_found :
    (lm : Limiter) (t : String) {c : Counters} → lookup t lm.counts ≡ some c → counts_of lm t ≡ c
unfolding counters
counts_of_found lm t e = ground arith

pub counters-pools : (lm : Limiter) (t : String) → (counters lm t).0.pools ≡ lm.pools
unfolding counters
counters-pools lm t = ground arith

pub pool-counts : (lm : Limiter) (t : String) → (pool lm t).0.counts ≡ lm.counts
unfolding pool
pool-counts lm t = ground arith

-- Counting an answer leaves the pools alone, and counts as `count` does.
pub answer_lem :
    (lm : Limiter) (t : String) (d : Decision) (cost : ℕ)
    → ((answer lm t d cost).pools ≡ lm.pools)
      × (counts_of (answer lm t d cost) t ≡ count (counts_of lm t) d cost)
unfolding answer
answer_lem lm t admit cost =
    (counters-pools lm t, counts_of_found _ t (lookup-insert_self t _ (counters lm t).0.counts))
answer_lem lm t reject cost =
    (counters-pools lm t, counts_of_found _ t (lookup-insert_self t _ (counters lm t).0.counts))
answer_lem lm t unknown cost = (refl, unfold count in refl)

abbrev pub counted : Counters → Outcome → ℕ → Counters
counted c (decided d) cost = count c d cost
counted c (waits chan) cost = c

settle_at_lem :
    (lm : Limiter) (t : String) (o : Outcome) (cost : ℕ)
    → ((settle_at lm t o cost).pools ≡ lm.pools)
      × (counts_of (settle_at lm t o cost) t ≡ counted (counts_of lm t) o cost)
unfolding settle_at
settle_at_lem lm t (decided d) cost = answer_lem lm t d cost
settle_at_lem lm t (waits chan) cost = (refl, refl)

pub counts_of_same :
    (lm lm' : Limiter) (t : String) → lm'.counts ≡ lm.counts → counts_of lm' t ≡ counts_of lm t
unfolding counters
counts_of_same lm lm' t e = ground arith

-- `Check` on the limiter is the critical section on the tenant's pool, at the effective cost: the
-- pool in the map afterwards, the flag for a renewal and the outcome are that section's, and an
-- answer, but no wait, is counted in the tenant's counters.
pub check_refines :
    (lm : Limiter) (t : String) (cost : ℤ) (now chan : ℕ)
    → let (lm', need, o) = check lm t cost now chan in
      let section = begin (pool_of lm t) now (effective_cost cost) chan in
      (pool_of lm' t ≡ section.0)
      × (need ≡ section.1)
      × (o ≡ section.2)
      × (counts_of lm' t ≡ counted (counts_of lm t) section.2 (effective_cost cost))
unfolding check
check_refines lm t cost now chan =
    let c : ℕ = effective_cost cost in
    let section = begin (pool_of lm t) now c chan in
    let found = record (pool lm t).0 { pools = insert t section.0 (pool lm t).0.pools } in
    let settled = settle_at_lem found t section.2 c in
    (
      pool_of_found (settle_at found t section.2 c) t
          (ap (lookup t) settled.0 ∙ lookup-insert_self t section.0 (pool lm t).0.pools),
      refl,
      refl,
      settled.1
          ∙ ap (λ (k : Counters). counted k section.2 c)
              (counts_of_same lm found t (pool-counts lm t)),
    )
