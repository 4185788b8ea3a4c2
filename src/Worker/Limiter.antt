-- ===== src/Worker/Limiter.antt =====
-- internal/worker/limiter.go, `Limiter`: the pools and the counters of all tenants of one worker.
-- Both maps are filled on first use. A pool found in the map is the one that is updated in place,
-- so the model writes it back under the same name.
pub mod Isolation
pub mod Refinement
mod Examples
use ratelimiter.Base.{
  ℕ, ◌+◌, String, List, [], ◌∷◌, Option, none, some, Bool, true, false, if◌then◌else◌,
}
use ratelimiter.Base.Int.{ℤ}
use ratelimiter.Base.Dict.{lookup, insert}
use ratelimiter.Worker.Pool.{
  Pool, empty_pool, Reply, Decision, admit, reject, unknown, Outcome, decided, waits,
  effective_cost, begin, resume, finish,
}
use ratelimiter.Worker.Replica.{Counters, no_counts, count}

pub record Limiter : Type 0 where
  pub pools : List (String × Pool)
  pub counts : List (String × Counters)

-- `NewLimiter`
abbrev pub new_limiter : Limiter
new_limiter = record { pools = []; counts = [] }

-- `pool`: the tenant's pool, made if it is not there.
unfoldable pub pool : Limiter → String → Limiter × Pool
pool lm tenant = elim (lookup tenant lm.pools) [
  | some p ↦ (lm, p)
  | none ↦ (record lm { pools = insert tenant empty_pool lm.pools }, empty_pool)
]

-- `counters`: the tenant's counters, made if they are not there.
unfoldable pub counters : Limiter → String → Limiter × Counters
counters lm tenant = elim (lookup tenant lm.counts) [
  | some c ↦ (lm, c)
  | none ↦ (record lm { counts = insert tenant no_counts lm.counts }, no_counts)
]

-- An answered request is counted; a 404 of a tenant marked unknown is not, and makes no counters.
unfoldable pub answer : Limiter → String → Decision → ℕ → Limiter
unfolding counters count
answer lm tenant unknown cost = lm
answer lm tenant d cost =
    let (lm', c) = counters lm tenant in
    record lm' { counts = insert tenant (count c d cost) lm'.counts }

-- The outcome of the first critical section, counted if it is an answer.
unfoldable pub settle_at : Limiter → String → Outcome → ℕ → Limiter
unfolding answer
settle_at lm tenant (decided d) cost = answer lm tenant d cost
settle_at lm tenant (waits chan) cost = lm

-- `Check` up to its answer or its wait: the limiter, whether a renewal starts, and the outcome.
unfoldable pub check : Limiter → String → ℤ → ℕ → ℕ → Limiter × Bool × Outcome
unfolding pool settle_at
check lm tenant cost now chan =
    let c : ℕ = effective_cost cost in
    let (lm', p) = pool lm tenant in
    let (p', need, o) = begin p now c chan in
    (settle_at (record lm' { pools = insert tenant p' lm'.pools }) tenant o c, need, o)

-- `Check` after its channel was closed.
unfoldable pub check_again : Limiter → String → ℤ → ℕ → Limiter × Decision
unfolding pool answer
check_again lm tenant cost now =
    let c : ℕ = effective_cost cost in
    let (lm', p) = pool lm tenant in
    let (p', d) = resume p now c in
    (answer (record lm' { pools = insert tenant p' lm'.pools }) tenant d c, d)

-- `Check` after its wait has run out.
unfoldable pub check_timed_out : Limiter → String → ℤ → Limiter × Decision
unfolding answer
check_timed_out lm tenant cost = (answer lm tenant reject (effective_cost cost), reject)

-- `renew` up to its lease call: the call is counted.
unfoldable pub renew_starts : Limiter → String → Limiter
unfolding counters
renew_starts lm tenant =
    let (lm', c) = counters lm tenant in
    record lm' { counts = insert tenant (record c { lease_calls = c.lease_calls + 1 }) lm'.counts }

-- `renew` after its lease call: the limiter, and the channel that is closed.
unfoldable pub renew_ends : Limiter → String → ℕ → Reply → ℕ → Limiter × Option ℕ
unfolding pool counters
renew_ends lm tenant now reply draw =
    let (lm', p) = pool lm tenant in
    let (p', closed, counted) = finish p now reply draw in
    let (lm'', c) = counters (record lm' { pools = insert tenant p' lm'.pools }) tenant in
    (
      record lm'' {
        counts =
            insert tenant (if counted then record c { lease_errs = c.lease_errs + 1 } else c)
              lm''.counts;
      },
      closed,
    )

-- The loop of `StatsSnapshot` over the tenants: the five counters of each.
unfoldable pub snapshot_of : List (String × Counters) → List (String × Counters)
snapshot_of [] = []
snapshot_of ((tenant, c) ∷ counts) =
    insert tenant
      (record {
        admitted = c.admitted;
        admitted_tokens = c.admitted_tokens;
        rejected = c.rejected;
        lease_calls = c.lease_calls;
        lease_errs = c.lease_errs;
      })
      (snapshot_of counts)

-- `StatsSnapshot`, with the five names of the source as fields.
unfoldable pub stats_snapshot : Limiter → List (String × Counters)
unfolding snapshot_of
stats_snapshot lm = snapshot_of lm.counts
