-- ===== src/Worker/Pool.antt =====
-- internal/worker/limiter.go, one tenant's pool: the critical sections of `Check` and `renew`.
-- Times and durations are nanoseconds; the zero `time.Time` is 0. What the mutex protects runs at
-- once, so each critical section is a function on the pool. A channel is known by a number, and
-- `renew_done` is the channel of the renewal in flight.
pub mod Admission
pub mod Renewal
pub mod Outage
pub mod Grants
pub mod History
mod Examples
use ratelimiter.Base.{
  ℕ, ◌+◌, ◌-◌, ◌*◌, ◌/◌, ◌^◌, Bool, true, false, not, ◌&&◌, ◌||◌, Option, none, some, ltb, leb,
  ◌==◌, if◌then◌else◌,
}
use ratelimiter.Base.Int.{ℤ, pos, negsuc}

-- `minRetryAfter`, `backoffMin`, `backoffMax` and `unknownTenantTTL`
abbrev pub min_retry_after : ℕ
min_retry_after = 200_000_000

abbrev pub backoff_min : ℕ
backoff_min = 250_000_000

abbrev pub backoff_max : ℕ
backoff_max = 2_000_000_000

abbrev pub unknown_tenant_ttl : ℕ
unknown_tenant_ttl = 10_000_000_000

pub record Grant : Type 0 where
  pub tokens : ℕ
  pub ttl : ℕ
  pub retry_after : ℕ

-- What `Lease` returns: a grant, `ErrUnknownTenant`, or another error.
pub data Reply : Type 0 where
  grant : Grant → Reply
  no_such_tenant : Reply
  failed : Reply

pub record Pool : Type 0 where
  pub tokens : ℕ
  pub expiry : ℕ
  pub last_grant : ℕ
  pub renewing : Bool
  pub renew_done : Option ℕ
  pub next_try : ℕ
  pub backoff : ℕ
  pub unknown_until : ℕ

-- `&pool{}`
abbrev pub empty_pool : Pool
empty_pool = record {
  tokens = 0;
  expiry = 0;
  last_grant = 0;
  renewing = false;
  renew_done = none;
  next_try = 0;
  backoff = 0;
  unknown_until = 0;
}

pub data Decision : Type 0 where
  admit reject unknown : Decision

-- A cost below 1 is treated as 1.
unfoldable pub effective_cost : ℤ → ℕ
effective_cost (pos n) = if ltb n 1 then 1 else n
effective_cost (negsuc n) = 1

-- The level below which a pool is renewed: a fifth of the last grant, at least 1. (The source takes
-- `int(float64(g) * 0.2)`; for a grant below 2^50 that is the quotient by 5.)
unfoldable pub watermark : ℕ → ℕ
watermark last_grant = let w : ℕ = last_grant / 5 in if ltb w 1 then 1 else w

-- `shouldRenewLocked`
unfoldable pub should_renew : Pool → ℕ → Bool → Bool
unfolding watermark
should_renew p now insufficient =
    if p.renewing || ltb now p.next_try
    then false
    else if insufficient || p.last_grant == 0
    then true
    else ltb p.tokens (watermark p.last_grant)

-- Where the first critical section of `Check` leaves the request: answered, or waiting for a channel.
pub data Outcome : Type 0 where
  decided : Decision → Outcome
  waits : ℕ → Outcome

-- Stale budget is dropped.
unfoldable pub drop_stale : Pool → ℕ → Pool
drop_stale p now = if ltb 0 p.tokens && leb p.expiry now then record p { tokens = 0 } else p

-- `admitted := p.tokens >= cost`, and the tokens are taken if so.
unfoldable pub take : Pool → ℕ → Pool × Bool
take p cost =
    let admitted : Bool = leb cost p.tokens in
    (if admitted then record p { tokens = p.tokens - cost } else p, admitted)

-- A renewal is marked as in flight, on a new channel.
unfoldable pub mark_renewing : Pool → Bool → ℕ → Pool
mark_renewing p need chan = if need then record p { renewing = true; renew_done = some chan } else p

-- Whether a request may wait: it was not admitted, a renewal is in flight, and the pool is cold.
unfoldable pub can_wait : Pool → ℕ → Bool → Bool
can_wait p now admitted =
    let cold : Bool = p.last_grant == 0 || leb p.expiry now in
    not admitted && p.renewing && p.next_try == 0 && cold

-- How the request goes on, with the channel that it saw.
unfoldable pub outcome : Bool → Bool → Option ℕ → Outcome
outcome true waiting channel = decided admit
outcome false false channel = decided reject
outcome false true none = decided reject
outcome false true (some chan) = waits chan

-- The first critical section of `Check`: the pool, whether a renewal is to be started, on the
-- channel `chan`, and where the request stands.
unfoldable pub begin : Pool → ℕ → ℕ → ℕ → Pool × Bool × Outcome
unfolding drop_stale take should_renew mark_renewing can_wait outcome
begin p now cost chan =
    if ltb now p.unknown_until
    then (p, false, decided unknown)
    else let (taken, admitted) = take (drop_stale p now) cost in
      let need : Bool = should_renew taken now (not admitted) in
      let marked : Pool = mark_renewing taken need chan in
      (marked, need, outcome admitted (can_wait marked now admitted) marked.renew_done)

-- The second critical section of `Check`, after the channel was closed.
unfoldable pub resume : Pool → ℕ → ℕ → Pool × Decision
resume p now cost =
    if ltb now p.unknown_until
    then (p, unknown)
    else if leb cost p.tokens && ltb now p.expiry
    then (record p { tokens = p.tokens - cost }, admit)
    else (p, reject)

-- The wait after a failed call: the first, or twice the last, up to the greatest.
unfoldable pub next_backoff : ℕ → ℕ
next_backoff b =
    if b == 0
    then backoff_min
    else let doubled : ℕ = b * 2 in if ltb backoff_max doubled then backoff_max else doubled

-- `rand.Float64()` is `draw / 2^53` for a draw below 2^53, so that the jitter
-- `1 + (rand.Float64() - 0.5) / 2` is `(3 * 2^52 + draw) / 2^54`.
unfoldable pub jittered : ℕ → ℕ → ℕ
jittered backoff draw = backoff * (3 * 2 ^ 52 + draw) / 2 ^ 54

-- The critical section of `renew`, with what the lease call returned and the random draw: the pool,
-- the channel that is closed, and whether an error is counted.
unfoldable pub finish : Pool → ℕ → Reply → ℕ → Pool × Option ℕ × Bool
unfolding next_backoff jittered
finish p now reply draw =
    let q : Pool = record p { renewing = false; renew_done = none } in
    elim reply [
      | no_such_tenant ↦
          (record q { tokens = 0; unknown_until = now + unknown_tenant_ttl }, p.renew_done, false)
      | failed ↦
          let b : ℕ = next_backoff q.backoff in
          (record q { backoff = b; next_try = now + jittered b draw }, p.renew_done, true)
      | grant g ↦
          if g.tokens == 0
          then (
            record q {
              backoff = 0;
              next_try =
                  now
                  + (if ltb g.retry_after min_retry_after then min_retry_after else g.retry_after);
            },
            p.renew_done,
            false,
          )
          else (
            record q {
              backoff = 0;
              next_try = 0;
              tokens = q.tokens + g.tokens;
              expiry = now + g.ttl;
              last_grant = g.tokens;
            },
            p.renew_done,
            false,
          )
    ]
