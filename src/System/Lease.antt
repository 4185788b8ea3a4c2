-- ===== src/System/Lease.antt =====
-- The lease call of internal/worker/server.go against the handler of
-- internal/coordinator/coordinator.go.
use ratelimiter.Base.{ℕ, ◌≡◌, ◌≢◌, refl, String, eq_iff, some, arith}
use ratelimiter.Base.Dict.{lookup, insert}
use ratelimiter.Config.{Config}
use ratelimiter.Coordinator.{Server, TenantState, lease_tenant, handle_lease}
use ratelimiter.Coordinator.Tenants.{handle_lease_served, handle_lease_isolated}
use ratelimiter.Worker.Pool.{failed}
use ratelimiter.Worker.Leaser.{lease}
use ratelimiter.Cluster.{reply_of}
use ratelimiter.System.Nodes.{response_of, call_lease}

module _ (server : Server) (t worker : String) (now : ℕ) where
  -- A worker that asks for a configured tenant is given what its bucket grants.
  pub call_lease_found :
      {cfg : Config} {ts : TenantState}
      → server.cfg ≡ cfg
      → t ≢ ""
      → lookup t server.tenants ≡ some ts
      → call_lease server t worker now ≡ (
        record server { tenants = insert t (lease_tenant cfg ts now).0 server.tenants },
        reply_of (lease_tenant cfg ts now).1,
      )
  unfolding call_lease response_of reply_of lease
  call_lease_found same named found =
      rw
        (
          ← same,
          handle_lease_served server (record { tenant = t; worker = worker }) now named found,
        )
        refl

  -- A worker that asks for the tenant without a name is refused.
  pub call_lease_unnamed : t ≡ "" → call_lease server t worker now ≡ (server, failed)
  unfolding call_lease response_of lease handle_lease
  call_lease_unnamed e = ground (arith, (eq_iff t "").1 e)

  -- A call keeps the configuration and the buckets of all other tenants.
  pub call_lease_other :
      (u : String)
      → t ≢ u
      → ((call_lease server t worker now).0.cfg ≡ server.cfg)
        × (lookup u (call_lease server t worker now).0.tenants ≡ lookup u server.tenants)
  unfolding call_lease handle_lease
  call_lease_other u ne = (
    ground arith,
    unfold handle_lease in
        handle_lease_isolated server (record { tenant = t; worker = worker }) now u ne,
  )
