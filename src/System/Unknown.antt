-- ===== src/System/Unknown.antt =====
-- What a tenant that is not in the configuration has: nothing, on no worker.
pub mod Limit
use mathlib.Core.List.{map-append}
use mathlib.Core.Option
use ratelimiter.Base.{
  ℕ, ◌+◌, ◌≤◌, ◌≡◌, ◌≢◌, refl, ap, subst, ◌∙◌, String, str_eq, eq_iff, List, [], ◌∷◌, ◌++◌, map,
  Option, none, Bool-cases, Option-cases, inl, inr, arith, sum_by, sum_by-append,
}
use ratelimiter.Base.Dict.{lookup}
use ratelimiter.Config.{Config}
use ratelimiter.Coordinator
use ratelimiter.Coordinator.{Server, handle_lease}
use ratelimiter.Coordinator.Tenants.{lookup-new_tenants}
use ratelimiter.Worker.Pool.{Reply, failed, effective_cost}
use ratelimiter.Worker.Pool.Admission.{spent}
use ratelimiter.Worker.Pool.History.{granted_by}
use ratelimiter.Worker.Leaser.{lease}
use ratelimiter.Worker.Replica.{Replica, Call, asked, answered, check, wake, give_up, renewed}
use ratelimiter.Worker.Replica.Flight.{Has, outstanding, call_tokens}
use ratelimiter.Worker.Replica.Budget.{
  check_budget, wake_budget, give_up_budget, renewed_budget, call_budget,
}
use ratelimiter.Worker.Server.{parse_cost}
use ratelimiter.System as Whole
use ratelimiter.System.{System, SysStep, SysReach, credit, new_system}
use ratelimiter.System.Nodes.{
  Waiting, Node, new_node, arrive, go_on, run_out, with_calls, renew_ended, response_of, call_lease,
  worth, worth_now,
}
use ratelimiter.System.Lease.{call_lease_other}
use ratelimiter.System.View.{
  held, replica_at, arrive_lem, arrive_bad, set_at_self, set_at_ne, new_node_seen,
}
use ratelimiter.System.View.Sections.{go_on_lem, run_out_lem, with_calls_lem, renew_ended_lem}
use ratelimiter.System.View.Others.{
  arrive_other, go_on_other, run_out_other, with_calls_other, renew_ended_other,
}
use ratelimiter.System.View.Budget.{tokens_at}

-- The coordinator knows no such tenant, no worker holds a token of it, and none was admitted.
pub record IsBarred (u : String) (s : System) : Type 0 where
  pub unconfigured : lookup u s.server.cfg.tenants ≡ none
  pub unserved : lookup u s.server.tenants ≡ none
  pub broke : sum_by (tokens_at u) s.nodes ≡ 0
  pub none_admitted : s.admitted u ≡ 0

module _ (u : String) (s : System) (v : IsBarred u s) (before after : List Node) (n n' : Node) where
  -- A worker that spends what it does not have.
  node-IsBarred :
      (admitted : String → ℕ) (k : ℕ)
      → s.nodes ≡ before ++ n ∷ after
      → tokens_at u n' + k ≤ tokens_at u n
      → admitted u ≡ s.admitted u + k
      → IsBarred u (record s { nodes = before ++ n' ∷ after; admitted = admitted })
  node-IsBarred admitted k e h a =
      let was = ap (sum_by (tokens_at u)) e ∙ sum_by-append (tokens_at u) before (n ∷ after) in
      let is = sum_by-append (tokens_at u) before (n' ∷ after) in
      record {
        unconfigured = v.unconfigured;
        unserved = v.unserved;
        broke = omega (arith, was, is, h, v.broke);
        none_admitted = omega (arith, was, h, a, v.broke, v.none_admitted);
      }

  same_node :
      (admitted : String → ℕ)
      → s.nodes ≡ before ++ n ∷ after
      → replica_at u n' ≡ replica_at u n
      → admitted u ≡ s.admitted u
      → IsBarred u (record s { nodes = before ++ n' ∷ after; admitted = admitted })
  same_node admitted e same a =
      node-IsBarred admitted 0 e (omega (arith, ap outstanding same)) (omega (arith, a))

-- A call for a tenant that the coordinator does not know changes nothing there and brings no token.
pub call_lease_barred :
    (server : Server) (t worker : String) (now : ℕ)
    → lookup t server.tenants ≡ none
    → ((call_lease server t worker now).0 ≡ server)
      × (granted_by (call_lease server t worker now).1 ≡ 0)
unfolding call_lease handle_lease response_of lease
call_lease_barred server t worker now e = elim (Bool-cases (str_eq t "")) [
  | inl m ↦ rw (m, handle_lease) (refl, refl)
  | inr m ↦ rw (m, e, handle_lease) (refl, refl)
]

-- The nodes of a state, with another server for which the tenant is as unknown.
server-IsBarred :
    (u : String) (s : System) (server : Server)
    → server.cfg ≡ s.server.cfg
    → lookup u server.tenants ≡ lookup u s.server.tenants
    → IsBarred u s
    → IsBarred u (record s { server = server })
server-IsBarred u s server same kept v = record {
  unconfigured = rw same v.unconfigured;
  unserved = kept ∙ v.unserved;
  broke = v.broke;
  none_admitted = v.none_admitted;
}

by_name : (P : String → Type 0) (t u : String) → P t → (t ≢ u → P u) → P u
by_name P t u own other = elim (Bool-cases (str_eq t u)) [
  | inl e ↦ subst P ((eq_iff t u).0 e) own
  | inr e ↦ other (λ same. ground (arith, e, (eq_iff t u).1 same))
]

module _ (t u : String) (s : System) where
  credited : (k : ℕ) → credit t k s.admitted t ≡ s.admitted t + k
  credited k = set_at_self t (s.admitted t + k) s.admitted

  not_credited : (k : ℕ) → t ≢ u → credit t k s.admitted u ≡ s.admitted u
  not_credited k ne = set_at_ne t u (s.admitted t + k) s.admitted ne

  -- A change of one worker, that is one of `t` or, for another tenant, none.
  change-IsBarred :
      (before after : List Node) (n n' : Node) (admitted : String → ℕ) (k : ℕ)
      → s.nodes ≡ before ++ n ∷ after
      → tokens_at t n' + k ≤ tokens_at t n
      → (t ≢ u → replica_at u n' ≡ replica_at u n)
      → admitted t ≡ s.admitted t + k
      → (t ≢ u → admitted u ≡ s.admitted u)
      → IsBarred u s
      → IsBarred u (record s { nodes = before ++ n' ∷ after; admitted = admitted })
  change-IsBarred before after n n' admitted k e h same own other =
      let s' : System = record s { nodes = before ++ n' ∷ after; admitted = admitted } in
      by_name (λ w. IsBarred w s → IsBarred w s') t u
        (λ v. node-IsBarred t s v before after n n' admitted k e h own)
        (λ ne v. same_node u s v before after n n' admitted e (same ne) (other ne))

  -- With credit for what was spent, and without a change of what was admitted.
  pub spent-IsBarred :
      (before after : List Node) (n n' : Node) (k : ℕ)
      → s.nodes ≡ before ++ n ∷ after
      → tokens_at t n' + k ≤ tokens_at t n
      → (t ≢ u → replica_at u n' ≡ replica_at u n)
      → IsBarred u s
      → IsBarred u (record s { nodes = before ++ n' ∷ after; admitted = credit t k s.admitted })
  spent-IsBarred before after n n' k e h same =
      change-IsBarred before after n n' (credit t k s.admitted) k e h same (credited k)
        (not_credited k)

  pub kept-IsBarred :
      (before after : List Node) (n n' : Node)
      → s.nodes ≡ before ++ n ∷ after
      → tokens_at t n' ≤ tokens_at t n
      → (t ≢ u → replica_at u n' ≡ replica_at u n)
      → IsBarred u s
      → IsBarred u (record s { nodes = before ++ n' ∷ after })
  kept-IsBarred before after n n' e h same =
      change-IsBarred before after n n' s.admitted 0 e (omega (arith, h)) same (omega arith)
        (λ ne. refl)

  -- A call of a worker is changed to one that brings no more tokens.
  pub call-IsBarred :
      (before after : List Node) (n : Node) (first last : List Call) (c d : Call)
      → s.nodes ≡ before ++ n ∷ after
      → (n.flights t).calls ≡ first ++ c ∷ last
      → call_tokens d ≡ 0
      → IsBarred u s
      → IsBarred u (record s { nodes = before ++ with_calls n t (first ++ d ∷ last) ∷ after })
  call-IsBarred before after n first last c d e f z =
      let calls : List Call = first ++ d ∷ last in
      kept-IsBarred before after n (with_calls n t calls) e
        (omega (
          arith,
          ap outstanding (with_calls_lem n t calls),
          call_budget (replica_at t n) first last c d f,
          z,
        ))
        (λ ne. with_calls_other ne n calls)

  -- The same for any call of another tenant.
  other_call :
      (before after : List Node) (n : Node) (calls : List Call)
      → t ≢ u
      → s.nodes ≡ before ++ n ∷ after
      → IsBarred u s
      → IsBarred u (record s { nodes = before ++ with_calls n t calls ∷ after })
  other_call before after n calls ne e v =
      same_node u s v before after n (with_calls n t calls) s.admitted e
        (with_calls_other ne n calls) refl

  -- The coordinator handles a call of `t`, and it ends with a reply.
  pub lease-IsBarred :
      (worker : String) (before after : List Node) (n : Node) (first last : List Call) (now : ℕ)
      (reply : Reply)
      → s.nodes ≡ before ++ n ∷ after
      → (n.flights t).calls ≡ first ++ asked ∷ last
      → (lookup t s.server.tenants ≡ none → granted_by reply ≡ 0)
      → IsBarred u s
      → IsBarred u (record s {
        server = (call_lease s.server t worker now).0;
        nodes = before ++ with_calls n t (first ++ answered reply ∷ last) ∷ after;
      })
  lease-IsBarred worker before after n first last now reply e f z v =
      let calls : List Call = first ++ answered reply ∷ last in
      let after_it : System = record s { nodes = before ++ with_calls n t calls ∷ after } in
      let server' : Server = (call_lease s.server t worker now).0 in
      elim (Bool-cases (str_eq t u)) [
        | inl m ↦
            let same : t ≡ u = (eq_iff t u).0 m in
            let unserved : lookup t s.server.tenants ≡ none = rw same v.unserved in
            let kept = (call_lease_barred s.server t worker now unserved).0 in
            rw kept
              (call-IsBarred before after n first last asked (answered reply) e f (z unserved) v)
        | inr m ↦
            let ne : t ≢ u = λ same. ground (arith, m, (eq_iff t u).1 same) in
            let (cfg_kept, others) = call_lease_other s.server t worker now u ne in
            server-IsBarred u after_it server' cfg_kept others
              (other_call before after n calls ne e v)
      ]

  -- A lease call that nobody waits for.
  pub stray-IsBarred :
      (worker : String) (now : ℕ)
      → IsBarred u s
      → IsBarred u (record s { server = (call_lease s.server t worker now).0 })
  stray-IsBarred worker now v = elim (Bool-cases (str_eq t u)) [
    | inl m ↦
        let same : t ≡ u = (eq_iff t u).0 m in
        let unserved : lookup t s.server.tenants ≡ none = rw same v.unserved in
        rw ((call_lease_barred s.server t worker now unserved).0) v
    | inr m ↦
        let ne : t ≢ u = λ same. ground (arith, m, (eq_iff t u).1 same) in
        let (cfg_kept, others) = call_lease_other s.server t worker now u ne in
        server-IsBarred u s (call_lease s.server t worker now).0 cfg_kept others v
  ]
