-- ===== src/System/Follows.antt =====
-- How a change of the system looks to one tenant.
use mathlib.Core.List.{map-append}
use ratelimiter.Base.{
  ℕ, ◌≡◌, ◌≢◌, refl, ap, subst, ◌∙◌, String, str_eq, eq_iff, List, ◌∷◌, ◌++◌, map, some, Bool-cases,
  inl, inr, arith,
}
use ratelimiter.Base.Int.{ℤ}
use ratelimiter.Base.Dict.{lookup}
use ratelimiter.Config.{Config}
use ratelimiter.Coordinator.{TenantState}
use ratelimiter.Worker.Replica.{Replica}
use ratelimiter.Cluster.{Cluster, Step, Reach, here, next}
use ratelimiter.System.{System}
use ratelimiter.System.Nodes.{Node}
use ratelimiter.System.View.{replica_at}

-- The cluster that a tenant sees, where the coordinator holds the state `ts` for it.
abbrev pub view : String → TenantState → System → Cluster
view u ts s = record {
  clock = s.clock;
  tenant = ts;
  replicas = map (replica_at u) s.nodes;
  admitted = s.admitted u;
  restarts = s.restarts;
}

-- From one state of the system to another, a tenant sees steps of its cluster, or none. A request of
-- a worker costs at most `max_cost`.
abbrev pub Follows : Config → ℕ → String → System → System → Type 0
Follows cfg max_cost u s s' =
    (rate : ℤ) (ts : TenantState)
    → lookup u cfg.tenants ≡ some rate
    → s.server.cfg ≡ cfg
    → lookup u s.server.tenants ≡ some ts
    → (ts' : TenantState) × (s'.server.cfg ≡ cfg)
      × (lookup u s'.server.tenants ≡ some ts')
      × Reach cfg rate max_cost (view u ts s) (view u ts' s')

module _ (cfg : Config) (max_cost : ℕ) where
  -- A step is one of the tenant that it is for, and nothing for any other.
  pub by_tenant :
      (t u : String) (s s' : System)
      → Follows cfg max_cost t s s'
      → (t ≢ u → Follows cfg max_cost u s s')
      → Follows cfg max_cost u s s'
  by_tenant t u s s' own other = elim (Bool-cases (str_eq t u)) [
    | inl e ↦ subst (λ v. Follows cfg max_cost v s s') ((eq_iff t u).0 e) own
    | inr e ↦ other (λ same. ground (arith, e, (eq_iff t u).1 same))
  ]

  pub view_swapped :
      (u : String) (ts : TenantState) (s : System) (before after : List Node) (n' : Node)
      (r' : Replica) (a : ℕ) (admitted : String → ℕ)
      → replica_at u n' ≡ r'
      → admitted u ≡ a
      → record (view u ts s) {
        replicas = map (replica_at u) before ++ r' ∷ map (replica_at u) after;
        admitted = a;
      }
        ≡ view u ts (record s { nodes = before ++ n' ∷ after; admitted = admitted })
  view_swapped u ts s before after n' r' a admitted e e' =
      rw (map-append (replica_at u) before (n' ∷ after), e, e') refl

  pub at_node :
      (u : String) {ns : List Node} (before after : List Node) (n : Node)
      → ns ≡ before ++ n ∷ after
      → map (replica_at u) ns
        ≡ map (replica_at u) before ++ replica_at u n ∷ map (replica_at u) after
  at_node u before after n e = rw (e, map-append (replica_at u) before (n ∷ after)) refl

  -- Only the nodes and what was admitted change.
  module _ (u : String) (s : System) (before after : List Node) (n n' : Node)
      (admitted : String → ℕ) where
    abbrev pub after_step : System
    after_step = record s { nodes = before ++ n' ∷ after; admitted = admitted }

    -- One step of the cluster.
    pub stepped :
        (r' : Replica) (a : ℕ)
        → replica_at u n' ≡ r'
        → admitted u ≡ a
        → ((rate : ℤ) (ts : TenantState)
            → Step cfg rate max_cost (view u ts s) (record (view u ts s) {
              replicas = map (replica_at u) before ++ r' ∷ map (replica_at u) after;
              admitted = a;
            }))
        → Follows cfg max_cost u s after_step
    stepped r' a e e' step rate ts known same found = (
      ts,
      same,
      found,
      subst (λ d. Reach cfg rate max_cost (view u ts s) d)
          (view_swapped u ts s before after n' r' a admitted e e') (next here (step rate ts)),
    )

    -- Nothing that the tenant sees.
    pub unseen_view :
        (ts : TenantState)
        → s.nodes ≡ before ++ n ∷ after
        → replica_at u n' ≡ replica_at u n
        → admitted u ≡ s.admitted u
        → view u ts s ≡ view u ts after_step
    unseen_view ts e e' e'' =
        ap (λ rs. record (view u ts s) { replicas = rs }) (at_node u before after n e)
        ∙ view_swapped u ts s before after n' (replica_at u n) (s.admitted u) admitted e' e''

    pub unseen :
        s.nodes ≡ before ++ n ∷ after
        → replica_at u n' ≡ replica_at u n
        → admitted u ≡ s.admitted u
        → Follows cfg max_cost u s after_step
    unseen e e' e'' rate ts known same found = (
      ts,
      same,
      found,
      subst (λ d. Reach cfg rate max_cost (view u ts s) d) (unseen_view ts e e' e'') here,
    )
