-- ===== src/Worker/Limiter/Examples.antt =====
-- The theorems on the limiter at a limiter with two tenants.
use ratelimiter.Base.{◌≡◌, refl, [], ◌∷◌, arith, eq_iff}
use ratelimiter.Base.Int.{pos, negsuc}
use ratelimiter.Base.Dict.{lookup, insert}
use ratelimiter.Worker.Pool.{empty_pool, grant, effective_cost, begin, resume, finish}
use ratelimiter.Worker.Replica.{no_counts}
use ratelimiter.Worker.Limiter.{
  Limiter, new_limiter, check, check_again, check_timed_out, renew_starts, renew_ends,
  stats_snapshot,
}
use ratelimiter.Worker.Limiter.Isolation.{checks, run_op, run_op_isolated}

abbrev two_tenants : Limiter
two_tenants = record {
  pools =
      ("a", record empty_pool { tokens = 4; expiry = 2_000; last_grant = 10 })
      ∷ ("b", empty_pool)
      ∷ [];
  counts = ("b", record no_counts { rejected = 2 }) ∷ [];
}

-- A cold tenant waits, its renewal ends, and the request is admitted and counted.
first_request :
    stats_snapshot
      (check_again
        (renew_ends
          (renew_starts (check new_limiter "a" (pos 3) 5 0).0 "a")
          "a"
          6
          (grant (record { tokens = 10; ttl = 100; retry_after = 0 }))
          0).0
        "a"
        (pos 3)
        7).0
    ≡ ("a", record no_counts { admitted = 1; admitted_tokens = 3; lease_calls = 1 }) ∷ []
unfolding stats_snapshot check_again renew_ends renew_starts check lookup insert begin resume finish
    effective_cost
first_request = refl

timed_out :
    (check_timed_out two_tenants "b" (negsuc 4)).0.counts
    ≡ ("b", record no_counts { rejected = 3 }) ∷ []
unfolding check_timed_out lookup insert effective_cost
timed_out = refl

run_op_isolated_example :
    (lookup "b" (run_op two_tenants "a" (checks (pos 3) 100 0)).pools
      ≡ lookup "b" two_tenants.pools)
    × (lookup "b" (run_op two_tenants "a" (checks (pos 3) 100 0)).counts
        ≡ lookup "b" two_tenants.counts)
run_op_isolated_example =
    run_op_isolated two_tenants "a" "b" (checks (pos 3) 100 0) (ground (arith, eq_iff "a" "b"))
