-- ===== src/Coordinator/Examples.antt =====
-- The theorems on the coordinator at a small configuration, and runs of its handlers.
use mathlib.Core.Option
use ratelimiter.Base.{
  ℕ, ◌+◌, ◌-◌, ◌*◌, ◌≤◌, ◌<◌, ◌≡◌, refl, String, List, [], ◌∷◌, Option, none, some, arith,
}
use ratelimiter.Base.Int.{pos}
use ratelimiter.Base.Dict.{lookup, insert}
use ratelimiter.Bucket
use ratelimiter.Bucket.{token, refill, take_up_to, next_token_in}
use ratelimiter.Config.{Config}
use ratelimiter.Coordinator.{
  TenantState, Server, new_tenant, new, LeaseRequest, lease_tenant, handle_stats, serve,
}
use ratelimiter.Coordinator.Accounts.{
  IsAccounted, new_tenant-IsAccounted, lease_tenant-IsAccounted, retry_after_suffices,
}
use ratelimiter.Coordinator.Tenants.{lookup-handle_stats}
use ratelimiter.Coordinator.Guarantee.{granted_within_limit, slow_tenant_starves}

abbrev cfg : Config
cfg = record {
  lease = record { size = pos 10; duration_ms = pos 2000 };
  tenants = ("a", pos 5_000) ∷ ("slow", pos 500) ∷ [];
}

abbrev ask : String → Option LeaseRequest
ask t = some (record { tenant = t; worker = "w" })

abbrev calls : List (Option LeaseRequest × ℕ)
calls = (ask "a", 1_000) ∷ (ask "slow", 2_000) ∷ (none, 3_000) ∷ (ask "a", 4_000) ∷ []

server : Server
unfolding new
server = new cfg 0 0

tenant_a : TenantState
unfolding new_tenant Bucket.new
tenant_a = new_tenant 0 (pos 5_000)

-- After the burst of 5 tokens is leased.
drained_a : TenantState
unfolding tenant_a lease_tenant take_up_to
drained_a = (lease_tenant cfg tenant_a 0).0

a_found : lookup "a" cfg.tenants ≡ some (pos 5_000)
unfolding lookup
a_found = refl

slow_found : lookup "slow" cfg.tenants ≡ some (pos 500)
unfolding lookup
slow_found = refl

unknown_not_found : lookup "unknown" server.tenants ≡ none
unfolding server lookup insert
unknown_not_found = refl

burst_leased : (lease_tenant cfg tenant_a 0).1.granted ≡ 5
unfolding tenant_a lease_tenant take_up_to next_token_in
burst_leased = refl

nothing_left :
    (lease_tenant cfg drained_a 0).1 ≡ record { granted = 0; ttl_ms = 2000; retry_after_ms = 201 }
unfolding drained_a lease_tenant take_up_to next_token_in
nothing_left = refl

drained_a-IsAccounted : IsAccounted 5_000 5_000_000_000_000 0 10 drained_a
unfolding drained_a tenant_a
drained_a-IsAccounted =
    lease_tenant-IsAccounted cfg tenant_a 0 (new_tenant-IsAccounted 0 10 (pos 5_000))

drained_a-last : drained_a.bucket.last ≡ 0
unfolding drained_a
drained_a-last = refl

granted_within_limit_example :
    (ts : TenantState) × (lookup "a" (serve (new cfg 0 0) calls).tenants ≡ some ts)
    × (token * ts.tokens_granted ≤ 5_000 * 1_000_000_000 + 5_000 * (1_000_000 - 0))
granted_within_limit_example =
    granted_within_limit cfg 0 0 1_000_000 "a" (pos 5_000) calls (omega arith) a_found (omega arith)

slow_tenant_starves_example :
    (ts : TenantState) × (lookup "slow" (serve (new cfg 0 0) calls).tenants ≡ some ts)
    × (ts.tokens_granted ≡ 0)
slow_tenant_starves_example =
    slow_tenant_starves cfg 0 0 1_000_000 "slow" (pos 500) calls (omega arith) slow_found
      (omega arith) (omega arith)

retry_after_suffices_example :
    0 < (lease_tenant cfg (lease_tenant cfg drained_a 0).0 201_000_000).1.granted
retry_after_suffices_example =
    retry_after_suffices cfg drained_a 0 201_000_000 drained_a-IsAccounted (omega arith)
      (omega arith) (omega arith) (omega (arith, drained_a-last)) (ground (arith, nothing_left))
      (ground (arith, nothing_left))

lookup-handle_stats_example :
    lookup "a" (handle_stats server).tenants
    ≡ Option.map
        (λ (ts : TenantState). record {
          lease_requests = ts.lease_requests;
          zero_grants = ts.zero_grants;
          tokens_granted = ts.tokens_granted;
        })
        (lookup "a" server.tenants)
lookup-handle_stats_example = lookup-handle_stats server "a"
