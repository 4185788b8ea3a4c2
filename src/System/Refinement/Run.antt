-- ===== src/System/Refinement/Run.antt =====
-- A run of the system, and the limit of each tenant in it.
use mathlib.Core.List.{map-append}
use mathlib.Core.Option
use ratelimiter.Base.{ℕ, ◌+◌, ◌-◌, ◌*◌, ◌≤◌, ◌≡◌, refl, ap, ◌∙◌, String, map, some}
use ratelimiter.Base.Int.{ℤ, to_nat}
use ratelimiter.Base.Dict.{lookup}
use ratelimiter.Bucket.{token}
use ratelimiter.Config.{Config}
use ratelimiter.Coordinator
use ratelimiter.Coordinator.{TenantState, new_tenant}
use ratelimiter.Coordinator.Tenants.{lookup-new_tenants}
use ratelimiter.Cluster as One
use ratelimiter.Cluster.{Cluster, Step, Reach, new_cluster}
use ratelimiter.Cluster.Invariant.{burst}
use ratelimiter.Cluster.Limit.{admitted_since_start}
use ratelimiter.System as Whole
use ratelimiter.System.{System, SysStep, SysReach, new_system}
use ratelimiter.System.View.{replica_at, new_node_seen}
use ratelimiter.System.Follows.{view, Follows, at_node}
use ratelimiter.System.Refinement.{
  request-Follows, wakes-Follows, times_out-Follows, fails-Follows, renews-Follows,
}
use ratelimiter.System.Refinement.Cheap.{IsCheapStep, IsCheap, run-IsCheap}
use ratelimiter.System.Refinement.Calls.{leases-Follows, loses-Follows, strays-Follows}

Reach-trans :
    {cfg : Config} {rate : ℤ} {max_cost : ℕ} {a b c : Cluster}
    → Reach cfg rate max_cost a b
    → Reach cfg rate max_cost b c
    → Reach cfg rate max_cost a c
Reach-trans r One.here = r
Reach-trans r (One.next q step) = One.next (Reach-trans r q) step

pub new_tenants_found :
    (cfg : Config) (u : String) (rate : ℤ) (started now : ℕ)
    → lookup u cfg.tenants ≡ some rate
    → lookup u (Coordinator.new cfg started now).tenants ≡ some (new_tenant now rate)
unfolding Coordinator.new
new_tenants_found cfg u rate started now e =
    lookup-new_tenants now cfg.tenants u ∙ ap (Option.map (new_tenant now)) e

module _ (cfg : Config) (max_cost : ℕ) (u : String) where
  SysStep-Follows :
      {s s' : System} (step : SysStep s s')
      → IsCheapStep max_cost step
      → Follows cfg max_cost u s s'
  unfolding Coordinator.new
  SysStep-Follows {s} (Whole.advance d) cheap =
      λ rate ts known same found. (ts, same, found, One.next One.here (One.advance d))
  SysStep-Follows {s} (Whole.request t before after n query now e h) cheap =
      request-Follows cfg max_cost t s u before after n query now e h cheap
  SysStep-Follows {s} (Whole.wakes t before after n first last w now e f g h) cheap =
      wakes-Follows cfg max_cost t s u before after n first last w now e f g h
  SysStep-Follows {s} (Whole.times_out t before after n first last w e f) cheap =
      times_out-Follows cfg max_cost t s u before after n first last w e f
  SysStep-Follows {s} (Whole.leases t worker before after n first last now e f h) cheap =
      leases-Follows cfg max_cost t worker s before after n first last now e f h u
  SysStep-Follows {s} (Whole.loses t worker before after n first last now e f h) cheap =
      loses-Follows cfg max_cost t worker s before after n first last now e f h u
  SysStep-Follows {s} (Whole.strays t worker now h) cheap =
      strays-Follows cfg max_cost t worker s now h u
  SysStep-Follows {s} (Whole.fails t before after n first last call e f) cheap =
      fails-Follows cfg max_cost t s u before after n first last call e f
  SysStep-Follows {s} (Whole.renews t before after n first last reply now draw e f h) cheap =
      renews-Follows cfg max_cost t s u before after n first last reply now draw e f h
  SysStep-Follows {s} (Whole.crashes before after n e) cheap = λ rate ts known same found. (
    ts,
    same,
    found,
    rw (map-append (replica_at u) before after) (
        One.next One.here (
          One.crashes (map (replica_at u) before) (map (replica_at u) after) (replica_at u n)
            (at_node cfg max_cost u before after n e))),
  )
  SysStep-Follows {s} Whole.starts cheap = λ rate ts known same found.
      (ts, same, found, rw (new_node_seen u) (One.next One.here One.starts))
  SysStep-Follows {s} (Whole.restarts started) cheap = λ rate ts known same found. (
    new_tenant s.clock rate,
    same,
    rw same (new_tenants_found cfg u rate started s.clock known),
    One.next One.here One.restarts,
  )

  -- A run of the whole system, whatever its tenants and workers do, is for each tenant of the
  -- configuration a run of the cluster of that tenant alone, with requests of the same cost:
  -- what the other tenants do cannot be told from nothing.
  pub SysReach-Follows :
      {s s' : System} (run : SysReach s s') → IsCheap max_cost run → Follows cfg max_cost u s s'
  SysReach-Follows Whole.here _ = λ rate ts known same found. (ts, same, found, One.here)
  SysReach-Follows (Whole.next run step) (cheap, now_cheap) = λ rate ts known same found.
      let (ts', same', found', reach) = SysReach-Follows run cheap rate ts known same found in
      let (ts'', same'', found'', reach') =
        SysStep-Follows step now_cheap rate ts' known same' found' in
      (ts'', same'', found'', Reach-trans reach reach')

-- What every configured tenant sees of a run from the start is a run of its own cluster from the
-- start: of the requests, renewals, losses, crashes and restarts, those that are its own, each as the
-- model of one tenant has it. What other tenants do, it cannot tell from nothing.
pub system_refines :
    (cfg : Config) (u : String) (rate : ℤ) (started now : ℕ) {s : System}
    → lookup u cfg.tenants ≡ some rate
    → SysReach (new_system cfg started now) s
    → (ts : TenantState) × (lookup u s.server.tenants ≡ some ts)
      × Reach cfg rate 1000 (new_cluster rate now) (view u ts s)
unfolding Coordinator.new
system_refines cfg u rate started now {s} known run =
    let (ts, same, found, reach) =
      SysReach-Follows cfg 1000 u run (run-IsCheap run) rate (new_tenant now rate) known refl
        (new_tenants_found cfg u rate started now known) in
    (ts, found, reach)

-- Any run of a system that starts at `now`, with requests of any tenants and costs at any number of
-- workers, lost calls, crashes and restarts: for every tenant of the configuration, the costs of the
-- requests answered 200 by all workers together are at most one burst, one more for each restart of
-- the coordinator, and the rate times the time since the start.
pub system_within_limit :
    (cfg : Config) (u : String) (rate : ℤ) (started now : ℕ) {s : System}
    → lookup u cfg.tenants ≡ some rate
    → SysReach (new_system cfg started now) s
    → token * s.admitted u ≤ burst rate * (1 + s.restarts) + to_nat rate * (s.clock - now)
system_within_limit cfg u rate started now {s} known run =
    let (ts, found, reach) = system_refines cfg u rate started now known run in
    admitted_since_start cfg rate 1000 now reach
