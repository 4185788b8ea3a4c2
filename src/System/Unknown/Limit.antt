-- ===== src/System/Unknown/Limit.antt =====
-- Nothing is ever admitted for a tenant that is not in the configuration.
use mathlib.Core.Option
use ratelimiter.Base.{ℕ, ◌≡◌, refl, ap, ◌∙◌, String, ◌∷◌, ◌++◌, none, arith, sum_by, sum_by-append}
use ratelimiter.Base.Dict.{lookup}
use ratelimiter.Config.{Config}
use ratelimiter.Coordinator
use ratelimiter.Coordinator.Tenants.{lookup-new_tenants}
use ratelimiter.Worker.Pool.{failed}
use ratelimiter.Worker.Replica.{answered}
use ratelimiter.Worker.Replica.Flight.{outstanding}
use ratelimiter.System as Whole
use ratelimiter.System.{System, SysStep, SysReach, new_system}
use ratelimiter.System.Nodes.{arrive, go_on, run_out, renew_ended, call_lease}
use ratelimiter.System.View.{new_node_seen}
use ratelimiter.System.View.Others.{arrive_other, go_on_other, run_out_other, renew_ended_other}
use ratelimiter.System.View.Budget.{
  tokens_at, arrive_budget, go_on_budget, run_out_budget, renew_ended_budget,
}
use ratelimiter.System.Unknown.{
  IsBarred, call_lease_barred, spent-IsBarred, kept-IsBarred, call-IsBarred, lease-IsBarred,
  stray-IsBarred,
}

unserved_anew :
    (cfg : Config) (u : String) (started now : ℕ)
    → lookup u cfg.tenants ≡ none
    → lookup u (Coordinator.new cfg started now).tenants ≡ none
unfolding Coordinator.new
unserved_anew cfg u started now e =
    lookup-new_tenants now cfg.tenants u ∙ ap (Option.map (Coordinator.new_tenant now)) e

module _ (u : String) where
  SysStep-IsBarred : {s s' : System} → SysStep s s' → IsBarred u s → IsBarred u s'
  unfolding Coordinator.new
  SysStep-IsBarred (Whole.advance d) v = record {
    unconfigured = v.unconfigured;
    unserved = v.unserved;
    broke = v.broke;
    none_admitted = v.none_admitted;
  }
  SysStep-IsBarred {s} (Whole.request t before after n query now e h) v =
      spent-IsBarred t u s before after n (arrive n t query now).0 _ e (arrive_budget t n query now)
        (λ ne. arrive_other ne n query now) v
  SysStep-IsBarred {s} (Whole.wakes t before after n first last w now e f g h) v =
      spent-IsBarred t u s before after n (go_on n t w.cost (first ++ last) now).0 _ e
        (go_on_budget t n w.cost (first ++ last) now)
        (λ ne. go_on_other ne n w.cost (first ++ last) now) v
  SysStep-IsBarred {s} (Whole.times_out t before after n first last w e f) v =
      spent-IsBarred t u s before after n (run_out n t w.cost (first ++ last)).0 _ e
        (run_out_budget t n w.cost (first ++ last))
        (λ ne. run_out_other ne n w.cost (first ++ last)) v
  SysStep-IsBarred {s} (Whole.leases t worker before after n first last now e f h) v =
      lease-IsBarred t u s worker before after n first last now (call_lease s.server t worker now).1
        e f (λ no. (call_lease_barred s.server t worker now no).1) v
  SysStep-IsBarred {s} (Whole.loses t worker before after n first last now e f h) v =
      lease-IsBarred t u s worker before after n first last now failed e f (λ no. refl) v
  SysStep-IsBarred {s} (Whole.strays t worker now h) v = stray-IsBarred t u s worker now v
  SysStep-IsBarred {s} (Whole.fails t before after n first last call e f) v =
      call-IsBarred t u s before after n first last call (answered failed) e f refl v
  SysStep-IsBarred {s} (Whole.renews t before after n first last reply now draw e f h) v =
      kept-IsBarred t u s before after n (renew_ended n t now reply draw (first ++ last)) e
        (renew_ended_budget t n first last reply now draw f)
        (λ ne. renew_ended_other ne n now reply draw (first ++ last)) v
  SysStep-IsBarred (Whole.crashes before after n e) v = record {
    unconfigured = v.unconfigured;
    unserved = v.unserved;
    broke = omega (
      arith,
      ap (sum_by (tokens_at u)) e,
      sum_by-append (tokens_at u) before (n ∷ after),
      sum_by-append (tokens_at u) before after,
      v.broke,
    );
    none_admitted = v.none_admitted;
  }
  SysStep-IsBarred Whole.starts v = record {
    unconfigured = v.unconfigured;
    unserved = v.unserved;
    broke = omega (arith, ap outstanding (new_node_seen u), v.broke);
    none_admitted = v.none_admitted;
  }
  SysStep-IsBarred {s} (Whole.restarts started) v = record {
    unconfigured = v.unconfigured;
    unserved = unserved_anew s.server.cfg u started s.clock v.unconfigured;
    broke = v.broke;
    none_admitted = v.none_admitted;
  }

  SysReach-IsBarred : {s s' : System} → SysReach s s' → IsBarred u s → IsBarred u s'
  SysReach-IsBarred Whole.here v = v
  SysReach-IsBarred (Whole.next run step) v = SysStep-IsBarred step (SysReach-IsBarred run v)

-- Whatever requests, renewals, losses, crashes and restarts interleave: no request of a tenant that is
-- not in the configuration is ever admitted, and no worker ever holds a token for it.
pub unknown_tenant_barred :
    (cfg : Config) (u : String) (started now : ℕ) {s : System}
    → lookup u cfg.tenants ≡ none
    → SysReach (new_system cfg started now) s
    → (s.admitted u ≡ 0) × (sum_by (tokens_at u) s.nodes ≡ 0)
unfolding Coordinator.new
unknown_tenant_barred cfg u started now e run =
    let v : IsBarred u _ = SysReach-IsBarred u run (record {
      unconfigured = e;
      unserved = unserved_anew cfg u started now e;
      broke = refl;
      none_admitted = refl;
    }) in
    (v.none_admitted, v.broke)
