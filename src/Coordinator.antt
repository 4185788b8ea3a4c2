-- ===== src/Coordinator.antt =====
-- internal/coordinator/coordinator.go: the buckets of all tenants behind /v1/lease and /v1/stats.
-- The JSON decoder is outside the repository: a handler takes what it returned, `none` for an error,
-- and the time that the handler read. The counters are atomic and no two of a tenant's calls touch
-- the bucket at once, so that a call is a function on the state.
pub mod Accounts
pub mod Tenants
pub mod Guarantee
mod Examples
use ratelimiter.Base.{
  ℕ, ◌+◌, ◌*◌, ◌/◌, String, List, [], ◌∷◌, Option, none, some, map, if◌then◌else◌, ◌==◌, str_eq,
}
use ratelimiter.Base.Int.{ℤ, to_nat}
use ratelimiter.Base.Dict.{lookup, insert}
use ratelimiter.Bucket.{Bucket, take_up_to, next_token_in}
use ratelimiter.Bucket
use ratelimiter.Config.{Config, burst_seconds}

-- `tenantState`
pub record TenantState : Type 0 where
  pub bucket : Bucket
  pub lease_requests : ℕ
  pub zero_grants : ℕ
  pub tokens_granted : ℕ

-- `Server`
pub record Server : Type 0 where
  pub cfg : Config
  pub tenants : List (String × TenantState)
  pub started : ℕ

-- A tenant's state at the start: a full bucket that holds `burst_seconds` of its rate. A rate of
-- 10^-3 token per second is 10^9 units in a second.
unfoldable pub new_tenant : ℕ → ℤ → TenantState
new_tenant now rate = record {
  bucket = Bucket.new (to_nat rate) (to_nat rate * burst_seconds * 1_000_000_000) now;
  lease_requests = 0;
  zero_grants = 0;
  tokens_granted = 0;
}

-- The loop of `New` over the tenants.
unfoldable pub new_tenants : ℕ → List (String × ℤ) → List (String × TenantState)
unfolding new_tenant
new_tenants now [] = []
new_tenants now ((name, rate) ∷ tenants) =
    insert name (new_tenant now rate) (new_tenants now tenants)

-- `New`, with its two readings of the clock.
unfoldable pub new : Config → ℕ → ℕ → Server
unfolding new_tenants
new cfg started now = record { cfg = cfg; tenants = new_tenants now cfg.tenants; started = started }

pub record LeaseRequest : Type 0 where
  pub tenant : String
  pub worker : String

pub record LeaseResponse : Type 0 where
  pub granted : ℕ
  pub ttl_ms : ℕ
  pub retry_after_ms : ℕ

-- What `handleLease` answers: status 400, 404, or 200 with a body.
pub data Answer : Type 0 where
  bad_request : Answer
  unknown_tenant : Answer
  leased : LeaseResponse → Answer

-- The part of `handleLease` from the counting of the request on.
unfoldable pub lease_tenant : Config → TenantState → ℕ → TenantState × LeaseResponse
lease_tenant cfg ts now =
    let (taken, granted) = take_up_to ts.bucket (to_nat cfg.lease.size) now in
    let (after, wait) = next_token_in taken now in
    let ttl : ℕ = to_nat cfg.lease.duration_ms in
    if granted == 0
    then (
      record ts {
        bucket = after;
        lease_requests = ts.lease_requests + 1;
        zero_grants = ts.zero_grants + 1;
      },
      record { granted = granted; ttl_ms = ttl; retry_after_ms = wait / 1_000_000 + 1 },
    )
    else (
      record ts {
        bucket = taken;
        lease_requests = ts.lease_requests + 1;
        tokens_granted = ts.tokens_granted + granted;
      },
      record { granted = granted; ttl_ms = ttl; retry_after_ms = 0 },
    )

-- `handleLease`
unfoldable pub handle_lease : Server → Option LeaseRequest → ℕ → Server × Answer
handle_lease s none now = (s, bad_request)
handle_lease s (some req) now =
    if str_eq req.tenant "" then (s, bad_request) else elim (lookup req.tenant s.tenants) [
      | none ↦ (s, unknown_tenant)
      | some ts ↦
          let (ts', resp) = lease_tenant s.cfg ts now in
          (record s { tenants = insert req.tenant ts' s.tenants }, leased resp)
    ]

-- `TenantStats` and `Stats`
pub record TenantStats : Type 0 where
  pub lease_requests : ℕ
  pub zero_grants : ℕ
  pub tokens_granted : ℕ

pub record Stats : Type 0 where
  pub started_ms : ℕ
  pub tenants : List (String × TenantStats)

unfoldable pub tenant_stats : TenantState → TenantStats
tenant_stats ts = record {
  lease_requests = ts.lease_requests;
  zero_grants = ts.zero_grants;
  tokens_granted = ts.tokens_granted;
}

-- The loop of `handleStats` over the tenants.
unfoldable pub stats_of : List (String × TenantState) → List (String × TenantStats)
unfolding tenant_stats
stats_of [] = []
stats_of ((name, ts) ∷ tenants) = insert name (tenant_stats ts) (stats_of tenants)

-- `handleStats`
unfoldable pub handle_stats : Server → Stats
unfolding stats_of
handle_stats s = record { started_ms = s.started / 1_000_000; tenants = stats_of s.tenants }

-- A history of lease calls, each with the time at which it was handled.
unfoldable pub serve : Server → List (Option LeaseRequest × ℕ) → Server
serve s [] = s
serve s ((req, now) ∷ calls) = serve (handle_lease s req now).0 calls
