-- ===== src/System/Examples.antt =====
-- A run of the system: two workers, a request of three tokens for the tenant a, and one of a tenant
-- that the coordinator does not know.
use ratelimiter.Base.{ℕ, ◌+◌, ◌-◌, ◌*◌, ◌≤◌, ◌≡◌, refl, List, [], ◌∷◌, some, inl, arith, sum_by}
use ratelimiter.Base.Int.{pos, to_nat}
use ratelimiter.Base.Dict.{lookup, insert}
use ratelimiter.Base.Decimal.{atoi}
use ratelimiter.Bucket
use ratelimiter.Bucket.{token, take_up_to, next_token_in}
use ratelimiter.Config.{Config}
use ratelimiter.Coordinator
use ratelimiter.Coordinator.{
  TenantState, Server, new_tenant, new_tenants, lease_tenant, handle_lease,
}
use ratelimiter.Worker.Leaser.{lease}
use ratelimiter.Worker.Pool.{Reply, begin, resume, finish, effective_cost}
use ratelimiter.Worker.Replica.{answered, close}
use ratelimiter.Worker.Limiter
use ratelimiter.Worker.Limiter.{
  pool, counters, check_again, renew_starts, renew_ends, answer, settle_at,
}
use ratelimiter.Worker.Server.{handle_check, handled, parse_cost}
use ratelimiter.Cluster.{Reach, new_cluster}
use ratelimiter.Cluster.Invariant.{burst}
use ratelimiter.System.{
  System, SysReach, here, next, advance, request, leases, renews, wakes, starts, restarts, crashes,
  new_system,
}
use ratelimiter.System.Nodes.{
  Node, new_node, arrive, go_on, with_calls, renew_ended, call_lease, response_of,
}
use ratelimiter.System.View.Budget.{tokens_at}
use ratelimiter.System.Follows.{view}
use ratelimiter.System.Refinement.Run.{system_refines, system_within_limit}
use ratelimiter.System.Unknown.Limit.{unknown_tenant_barred}

abbrev cfg : Config
cfg = record {
  lease = record { size = pos 10; duration_ms = pos 2000 };
  tenants = ("a", pos 100_000) ∷ ("b", pos 50_000) ∷ [];
}

-- A state that is reached from a start at time 0.
record Run : Type 0 where
  last : System
  reach : SysReach (new_system cfg 0 0) last

-- A cost of 3 in the query.
abbrev three : List ℕ
three = b'3' ∷ []

-- The worker with a request that waits, with its lease answered, and with the grant in its pool.
asking : Node
asking = (arrive new_node "a" three 900).0

server : Server
server = Coordinator.new cfg 0 0

reply : Reply
unfolding server
reply = (call_lease server "a" "w-1" 1_000).1

replied : Node
unfolding asking reply
replied = with_calls asking "a" (answered reply ∷ [])

refilled : Node
unfolding replied
refilled = renew_ended replied "a" 1_000 reply 0 []

begun : Run
unfolding asking
begun = record {
  last = _;
  reach =
      next (next (next (next here starts) starts) (advance 1_000))
        (request "a" [] (new_node ∷ []) new_node three 900 refl (omega arith));
}

leased : Run
unfolding begun asking server reply replied arrive handle_check parse_cost atoi Limiter.check pool
    counters renew_starts settle_at begin insert lookup handled effective_cost
leased = record {
  last = _;
  reach =
      next begun.reach
        (leases "a" "w-1" [] (new_node ∷ []) asking [] [] 1_000 refl refl (omega arith));
}

admitted : Run
unfolding leased asking server reply replied refilled arrive handle_check parse_cost atoi
    Limiter.check pool counters renew_starts settle_at begin insert lookup handled effective_cost
    renew_ended renew_ends finish close call_lease handle_lease lease_tenant take_up_to
    next_token_in Coordinator.new new_tenants new_tenant Bucket.new response_of lease
admitted = record {
  last = _;
  reach =
      next
        (next leased.reach
          (renews "a" [] (new_node ∷ []) replied [] [] reply 1_000 0 refl refl (omega arith)))
        (wakes "a" [] (new_node ∷ []) refilled [] [] (record { chan = 0; cost = pos 3 }) 1_000 refl
          refl (inl refl) (omega arith));
}

-- The coordinator restarts, the first worker crashes, and the second is asked for an unknown tenant.
ended : Run
unfolding admitted
ended = record {
  last = _;
  reach =
      next (next (next admitted.reach (restarts 1_000)) (crashes [] (new_node ∷ []) _ refl))
        (request "c" [] [] new_node three 1_000 refl (omega arith));
}

three_admitted : ended.last.admitted "a" ≡ 3
unfolding ended refilled replied asking reply server arrive handle_check parse_cost atoi
    Limiter.check pool counters renew_starts settle_at begin insert lookup handled effective_cost
    renew_ended renew_ends finish close call_lease handle_lease lease_tenant take_up_to
    next_token_in Coordinator.new new_tenants new_tenant Bucket.new response_of lease go_on
    check_again resume
three_admitted = refl

system_within_limit_example :
    token * ended.last.admitted "a"
    ≤ burst (pos 100_000) * (1 + ended.last.restarts)
      + to_nat (pos 100_000) * (ended.last.clock - 0)
unfolding lookup
system_within_limit_example = system_within_limit cfg "a" (pos 100_000) 0 0 refl ended.reach

system_refines_example :
    (ts : TenantState) × (lookup "b" ended.last.server.tenants ≡ some ts)
    × Reach cfg (pos 50_000) 1000 (new_cluster (pos 50_000) 0) (view "b" ts ended.last)
unfolding lookup
system_refines_example = system_refines cfg "b" (pos 50_000) 0 0 refl ended.reach

unknown_tenant_barred_example :
    (ended.last.admitted "c" ≡ 0) × (sum_by (tokens_at "c") ended.last.nodes ≡ 0)
unfolding lookup
unknown_tenant_barred_example = unknown_tenant_barred cfg "c" 0 0 refl ended.reach
