-- ===== src/Coordinator/Tenants.antt =====
-- The table of tenants: what a call answers and whose state it touches.
use mathlib.Core.Option
use ratelimiter.Base.{
  ℕ, ◌≡◌, refl, ◌≢◌, inl, inr, String, List, [], ◌∷◌, Option, none, some, arith, eq_iff,
  Option-cases,
}
use ratelimiter.Base.Int.{ℤ}
use ratelimiter.Base.Dict.{lookup, insert, lookup-insert, lookup-insert_ne}
use ratelimiter.Coordinator.{
  TenantState, Server, new_tenant, new_tenants, LeaseRequest, Answer, bad_request, unknown_tenant,
  leased, lease_tenant, handle_lease, tenant_stats, stats_of, handle_stats,
}

-- `New` opens exactly the tenants of the configuration, each at its own rate.
pub lookup-new_tenants :
    (now : ℕ) (ts : List (String × ℤ)) (t : String)
    → lookup t (new_tenants now ts) ≡ Option.map (new_tenant now) (lookup t ts)
unfolding new_tenants lookup
lookup-new_tenants now [] t = refl
lookup-new_tenants now ((name, rate) ∷ ts) t = ground (
  arith,
  lookup-insert name t (new_tenant now rate) (new_tenants now ts),
  lookup-new_tenants now ts t,
)

-- The stats of a tenant are its counters.
lookup-stats_of :
    (ts : List (String × TenantState)) (t : String)
    → lookup t (stats_of ts) ≡ Option.map tenant_stats (lookup t ts)
unfolding stats_of lookup
lookup-stats_of [] t = refl
lookup-stats_of ((name, state) ∷ ts) t =
    ground (arith, lookup-insert name t (tenant_stats state) (stats_of ts), lookup-stats_of ts t)

-- `handleStats` reports, for every tenant of the server and no other, the three counters as they are.
pub lookup-handle_stats :
    (s : Server) (t : String)
    → lookup t (handle_stats s).tenants
      ≡ Option.map
          (λ (ts : TenantState). record {
            lease_requests = ts.lease_requests;
            zero_grants = ts.zero_grants;
            tokens_granted = ts.tokens_granted;
          })
          (lookup t s.tenants)
unfolding handle_stats tenant_stats
lookup-handle_stats s t = lookup-stats_of s.tenants t

-- The requests that are refused, and their answers.
pub data Refusal (s : Server) (req : Option LeaseRequest) (a : Answer) : Type 0 where
  undecoded : req ≡ none → a ≡ bad_request → Refusal s req a
  unnamed : (r : LeaseRequest) → req ≡ some r → r.tenant ≡ "" → a ≡ bad_request → Refusal s req a
  unconfigured :
      (r : LeaseRequest)
      → req ≡ some r
      → r.tenant ≢ ""
      → lookup r.tenant s.tenants ≡ none
      → a ≡ unknown_tenant
      → Refusal s req a

-- A request that cannot be decoded or names no tenant is answered 400, one for a tenant that is not
-- configured 404, and neither changes the server.
pub handle_lease_refused :
    (s : Server) (req : Option LeaseRequest) (now : ℕ) {a : Answer}
    → Refusal s req a
    → handle_lease s req now ≡ (s, a)
unfolding handle_lease
handle_lease_refused s none now (undecoded e f) = ground arith
handle_lease_refused s none now (unnamed r e g f) = cc
handle_lease_refused s none now (unconfigured r e g h f) = cc
handle_lease_refused s (some q) now (undecoded e f) = cc
handle_lease_refused s (some q) now (unnamed r e g f) = ground (arith, eq_iff q.tenant "")
handle_lease_refused s (some q) now (unconfigured r e g h f) = ground (arith, eq_iff q.tenant "")

-- A request for a configured tenant runs that tenant's lease call and stores the result.
pub handle_lease_served :
    (s : Server) (r : LeaseRequest) (now : ℕ) {ts : TenantState}
    → r.tenant ≢ ""
    → lookup r.tenant s.tenants ≡ some ts
    → handle_lease s (some r) now ≡ (
      record s { tenants = insert r.tenant (lease_tenant s.cfg ts now).0 s.tenants },
      leased (lease_tenant s.cfg ts now).1,
    )
unfolding handle_lease
handle_lease_served s r now {ts} h e = ground (arith, eq_iff r.tenant "")

-- A call changes the state of no tenant but the one that it names.
pub handle_lease_isolated :
    (s : Server) (r : LeaseRequest) (now : ℕ) (t : String)
    → r.tenant ≢ t
    → lookup t (handle_lease s (some r) now).0.tenants ≡ lookup t s.tenants
unfolding handle_lease
handle_lease_isolated s r now t h = elim (Option-cases (lookup r.tenant s.tenants)) [
  | inl e ↦ ground (arith, eq_iff r.tenant "")
  | inr (ts, e) ↦ ground (
    arith,
    eq_iff r.tenant "",
    lookup-insert_ne r.tenant t (lease_tenant s.cfg ts now).0 s.tenants h,
  )
]
