-- ===== src/System/Refinement/Calls.antt =====
-- A lease call that the coordinator handles, as the tenants see it.
use ratelimiter.Base.{
  ℕ, ◌≤◌, ◌≡◌, ◌≢◌, refl, ap, subst, ◌∙◌, String, str_eq, eq_iff, List, ◌∷◌, ◌++◌, map, some,
  Bool-cases, inl, inr, arith,
}
use ratelimiter.Base.Int.{ℤ}
use ratelimiter.Base.Dict.{lookup, insert, lookup-insert_self}
use ratelimiter.Config.{Config}
use ratelimiter.Coordinator.{Server, TenantState, lease_tenant}
use ratelimiter.Worker.Pool.{Reply, failed}
use ratelimiter.Worker.Replica.{Replica, Call, asked, answered}
use ratelimiter.Cluster as One
use ratelimiter.Cluster.{Cluster, Step, Reach, here, next, reply_of}
use ratelimiter.System.{System}
use ratelimiter.System.Nodes.{Node, with_calls, call_lease}
use ratelimiter.System.Lease.{call_lease_found, call_lease_unnamed, call_lease_other}
use ratelimiter.System.View.{replica_at}
use ratelimiter.System.View.Sections.{with_calls_lem}
use ratelimiter.System.View.Others.{with_calls_other}
use ratelimiter.System.Follows.{view, Follows, by_tenant, at_node, view_swapped, unseen_view}

module _ (cfg : Config) (max_cost : ℕ) (t worker : String) (s : System) (before after : List Node)
    (n : Node) (first last : List Call) (now : ℕ) (here_is : s.nodes ≡ before ++ n ∷ after)
    (asks : (n.flights t).calls ≡ first ++ asked ∷ last) (past : now ≤ s.clock) where
  -- The system after the call, for what comes of it on the worker.
  abbrev after_call : Server → Reply → System
  after_call server reply = record s {
    server = server;
    nodes = before ++ with_calls n t (first ++ answered reply ∷ last) ∷ after;
  }

  abbrev calls_at : Reply → Replica
  calls_at reply = record (replica_at t n) { calls = first ++ answered reply ∷ last }

  -- A step of the cluster that a call of the tenant is.
  called :
      (rate : ℤ) (ts ts' : TenantState) (server : Server) (reply : Reply)
      → Step cfg rate max_cost (view t ts s) (record (view t ts' s) {
        replicas = map (replica_at t) before ++ calls_at reply ∷ map (replica_at t) after;
      })
      → Reach cfg rate max_cost (view t ts s) (view t ts' (after_call server reply))
  called rate ts ts' server reply step =
      let calls : List Call = first ++ answered reply ∷ last in
      subst (λ d. Reach cfg rate max_cost (view t ts s) d)
        (view_swapped cfg max_cost t ts' s before after (with_calls n t calls) (calls_at reply)
          (s.admitted t) s.admitted (with_calls_lem n t calls) refl)
        (next here step)

  -- A call of another tenant changes nothing that is seen.
  call_unseen :
      (u : String) (reply : Reply)
      → t ≢ u
      → Follows cfg max_cost u s (after_call (call_lease s.server t worker now).0 reply)
  call_unseen u reply ne rate ts known same found =
      let calls : List Call = first ++ answered reply ∷ last in
      let (kept, others) = call_lease_other s.server t worker now u ne in
      (
        ts,
        kept ∙ same,
        others ∙ found,
        subst (λ d. Reach cfg rate max_cost (view u ts s) d)
            (unseen_view cfg max_cost u s before after n (with_calls n t calls) s.admitted ts
              here_is (with_calls_other ne n calls) refl)
            here,
      )

  -- The state of the coordinator for the tenant after a call, if it is configured.
  named_call :
      (ts : TenantState)
      → s.server.cfg ≡ cfg
      → lookup t s.server.tenants ≡ some ts
      → t ≢ ""
      → call_lease s.server t worker now ≡ (
        record s.server { tenants = insert t (lease_tenant cfg ts now).0 s.server.tenants },
        reply_of (lease_tenant cfg ts now).1,
      )
  named_call ts same found named = call_lease_found s.server t worker now same named found

  -- What a step of the cluster makes of the call.
  abbrev Delivers : Reply → Type 0
  Delivers reply =
      (rate : ℤ) (ts : TenantState)
      → s.server.cfg ≡ cfg
      → lookup t s.server.tenants ≡ some ts
      → t ≢ ""
      → Step cfg rate max_cost (view t ts s) (record (view t (lease_tenant cfg ts now).0 s) {
        replicas = map (replica_at t) before ++ calls_at reply ∷ map (replica_at t) after;
      })

  -- The coordinator handles the call, and it ends with `reply`. For a tenant without a name it has
  -- failed.
  handled_call :
      (reply : Reply)
      → (t ≡ "" → reply ≡ failed)
      → Delivers reply
      → (u : String)
      → Follows cfg max_cost u s (after_call (call_lease s.server t worker now).0 reply)
  handled_call reply lost delivers u =
      by_tenant cfg max_cost t u s (after_call (call_lease s.server t worker now).0 reply)
        (λ rate ts known same found. elim (Bool-cases (str_eq t "")) [
          | inl e ↦
              let empty : t ≡ "" = (eq_iff t "").0 e in
              rw (call_lease_unnamed s.server t worker now empty, lost empty)
                (
                  ts,
                  same,
                  found,
                  called rate ts ts s.server failed (
                      One.fails (map (replica_at t) before) (map (replica_at t) after)
                        (replica_at t n) first last asked
                        (at_node cfg max_cost t before after n here_is) asks),
                )
          | inr e ↦
              let named : t ≢ "" = λ x. ground (arith, e, (eq_iff t "").1 x) in
              let ts' : TenantState = (lease_tenant cfg ts now).0 in
              let kept : Server = record s.server { tenants = insert t ts' s.server.tenants } in
              rw (named_call ts same found named) (
                ts',
                same,
                lookup-insert_self t ts' s.server.tenants,
                called rate ts ts' kept reply (delivers rate ts same found named),
              )
        ])
        (λ ne. call_unseen u reply ne)

  -- The response is on its way, for any tenant that looks on.
  pub leases-Follows :
      (u : String)
      → Follows cfg max_cost u s
          (after_call (call_lease s.server t worker now).0 (call_lease s.server t worker now).1)
  leases-Follows =
      handled_call (call_lease s.server t worker now).1
        (λ empty. ap (λ x. x.1) (call_lease_unnamed s.server t worker now empty))
        (λ rate ts same found named. rw (named_call ts same found named) (
          One.leases (map (replica_at t) before) (map (replica_at t) after) (replica_at t n) first
            last now (at_node cfg max_cost t before after n here_is) asks past))

  -- The response is lost.
  pub loses-Follows :
      (u : String)
      → Follows cfg max_cost u s (after_call (call_lease s.server t worker now).0 failed)
  loses-Follows =
      handled_call failed (λ empty. refl)
        (λ rate ts same found named.
          One.loses (map (replica_at t) before) (map (replica_at t) after) (replica_at t n) first
            last now (at_node cfg max_cost t before after n here_is) asks past)

-- A lease call that nobody waits for takes tokens of its tenant, if that is configured, and nothing
-- else.
pub strays-Follows :
    (cfg : Config) (max_cost : ℕ) (t worker : String) (s : System) (now : ℕ)
    → now ≤ s.clock
    → (u : String)
    → Follows cfg max_cost u s (record s { server = (call_lease s.server t worker now).0 })
strays-Follows cfg max_cost t worker s now past u =
    by_tenant cfg max_cost t u s (record s { server = (call_lease s.server t worker now).0 })
      (λ rate ts known same found. elim (Bool-cases (str_eq t "")) [
        | inl e ↦
            rw (call_lease_unnamed s.server t worker now ((eq_iff t "").0 e))
              (ts, same, found, here)
        | inr e ↦
            let named : t ≢ "" = λ x. ground (arith, e, (eq_iff t "").1 x) in
            let ts' : TenantState = (lease_tenant cfg ts now).0 in
            rw (call_lease_found s.server t worker now same named found) (
              ts',
              same,
              lookup-insert_self t ts' s.server.tenants,
              next here (One.strays now past),
            )
      ])
      (λ ne rate ts known same found.
        let (kept, others) = call_lease_other s.server t worker now u ne in
        (ts, kept ∙ same, others ∙ found, here))
