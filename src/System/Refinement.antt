-- ===== src/System/Refinement.antt =====
-- Every run of the system is, for each tenant of the configuration, a run of the cluster of that
-- tenant alone.
pub mod Cheap
pub mod Calls
pub mod Run
use mathlib.Core.List.{map-append}
use mathlib.Core.Option
use ratelimiter.Base.{
  ℕ, suc, ◌+◌, ◌*◌, ◌-◌, ◌≤◌, ◌<◌, ◌≡◌, ◌≢◌, refl, sym, ap, subst, ◌∙◌, String, str_eq, eq_iff,
  List, [], ◌∷◌, ◌++◌, map, Option, none, some, Bool-cases, Option-cases, inl, inr, arith,
}
use ratelimiter.Base.Int.{ℤ, pos, to_nat}
use ratelimiter.Base.Dict.{lookup, insert, lookup-insert_self, lookup-insert_ne}
use ratelimiter.Config.{Config}
use ratelimiter.Coordinator
use ratelimiter.Coordinator.{Server, TenantState, lease_tenant, handle_lease, new_tenant}
use ratelimiter.Coordinator.Tenants.{lookup-new_tenants}
use ratelimiter.Worker.Pool.{Reply, failed, effective_cost}
use ratelimiter.Worker.Pool.Admission.{spent}
use ratelimiter.Worker.Replica.Flight.{Has}
use ratelimiter.Worker.Leaser.{lease}
use ratelimiter.Worker.Replica.{Replica, Call, asked, answered, check, wake, give_up, renewed}
use ratelimiter.Worker.Server.{parse_cost}
use ratelimiter.Cluster as One
use ratelimiter.Cluster.{Cluster, Step, Reach, here, next, reply_of}
use ratelimiter.System as Whole
use ratelimiter.System.{System, SysStep, SysReach, credit}
use ratelimiter.System.Nodes.{
  Waiting, Node, set_at, arrive, go_on, run_out, with_calls, renew_ended, response_of, call_lease,
  worth, worth_now,
}
use ratelimiter.System.View.{
  held, replica_at, arrive_lem, arrive_bad, set_at_self, set_at_ne, set_at_same,
}
use ratelimiter.System.View.Sections.{go_on_lem, run_out_lem, with_calls_lem, renew_ended_lem}
use ratelimiter.System.View.Others.{
  arrive_other, go_on_other, run_out_other, with_calls_other, renew_ended_other,
}
use ratelimiter.System.Refinement.Cheap.{IsCost, cost_bounds}
use ratelimiter.System.Follows.{view, Follows, by_tenant, at_node, stepped, unseen}

-- A list that is seen with an element in it.
split_map :
    {A B : Type 0} (f : A → B) {xs : List A} (first last : List A) (x : A)
    → xs ≡ first ++ x ∷ last
    → map f xs ≡ map f first ++ f x ∷ map f last
split_map f first last x e = rw (e, map-append f first (x ∷ last)) refl

module _ (cfg : Config) (max_cost : ℕ) (t : String) (s : System) where
  credited : (n : ℕ) {m : ℕ} → n ≡ m → credit t n s.admitted t ≡ s.admitted t + m
  credited n e = set_at_self t (s.admitted t + n) s.admitted ∙ ap (λ k. s.admitted t + k) e

  not_credited : (u : String) (n : ℕ) → t ≢ u → credit t n s.admitted u ≡ s.admitted u
  not_credited u n ne = set_at_ne t u (s.admitted t + n) s.admitted ne

  pub request-Follows :
      (u : String) (before after : List Node) (n : Node) (query : List ℕ) (now : ℕ)
      → s.nodes ≡ before ++ n ∷ after
      → now ≤ s.clock
      → IsCost max_cost query
      → Follows cfg max_cost u s (record s {
        nodes = before ++ (arrive n t query now).0 ∷ after;
        admitted = credit t (worth_now (arrive n t query now).1 query) s.admitted;
      })
  request-Follows u before after n query now e h cheap =
      let n' : Node = (arrive n t query now).0 in
      let k : ℕ = worth_now (arrive n t query now).1 query in
      let s' : System = record s {
        nodes = before ++ n' ∷ after;
        admitted = credit t k s.admitted;
      } in
      by_tenant cfg max_cost t u s s'
        (elim (Option-cases (parse_cost query)) [
          | inl bad ↦
              let (same, zero_worth) = arrive_bad n t t query now bad in
              unseen cfg max_cost t s before after n n' (credit t k s.admitted) e same
                (credited k zero_worth ∙ omega arith)
          | inr (z, good) ↦
              let (same, worth_it) = arrive_lem n t query now z good in
              let low = (cost_bounds query z good).0 in
              stepped cfg max_cost t s before after n n' (credit t k s.admitted) _ _ same
                (credited k worth_it)
                (λ rate ts.
                  One.request (map (replica_at t) before) (map (replica_at t) after)
                    (replica_at t n) now (effective_cost z)
                    (at_node cfg max_cost t before after n e) h low (cheap z good))
        ])
        (λ ne.
          unseen cfg max_cost u s before after n n' (credit t k s.admitted) e
            (arrive_other ne n query now) (not_credited u k ne))

  pub wakes-Follows :
      (u : String) (before after : List Node) (n : Node) (first last : List Waiting) (w : Waiting)
      (now : ℕ)
      → s.nodes ≡ before ++ n ∷ after
      → (n.flights t).waiting ≡ first ++ w ∷ last
      → Has w.chan (n.flights t).closed
      → now ≤ s.clock
      → Follows cfg max_cost u s (record s {
        nodes = before ++ (go_on n t w.cost (first ++ last) now).0 ∷ after;
        admitted = credit t (worth (go_on n t w.cost (first ++ last) now).1 w.cost) s.admitted;
      })
  wakes-Follows u before after n first last w now e f g h =
      let n' : Node = (go_on n t w.cost (first ++ last) now).0 in
      let k : ℕ = worth (go_on n t w.cost (first ++ last) now).1 w.cost in
      let s' : System = record s {
        nodes = before ++ n' ∷ after;
        admitted = credit t k s.admitted;
      } in
      let r : Replica = replica_at t n in
      let c : ℕ = effective_cost w.cost in
      let others = map-append held first last in
      let (same, worth_it) = go_on_lem n t w.cost (first ++ last) now in
      by_tenant cfg max_cost t u s s'
        (stepped cfg max_cost t s before after n n' (credit t k s.admitted) _ _
          (same ∙ ap (λ ws. (wake r now c ws).0) others)
          (credited k (worth_it ∙ ap (λ ws. spent (wake r now c ws).1 c) others))
          (λ rate ts.
            One.wakes (map (replica_at t) before) (map (replica_at t) after) r (map held first)
              (map held last) (held w) now (at_node cfg max_cost t before after n e)
              (split_map held first last w f) g h))
        (λ ne.
          unseen cfg max_cost u s before after n n' (credit t k s.admitted) e
            (go_on_other ne n w.cost (first ++ last) now) (not_credited u k ne))

  pub times_out-Follows :
      (u : String) (before after : List Node) (n : Node) (first last : List Waiting) (w : Waiting)
      → s.nodes ≡ before ++ n ∷ after
      → (n.flights t).waiting ≡ first ++ w ∷ last
      → Follows cfg max_cost u s (record s {
        nodes = before ++ (run_out n t w.cost (first ++ last)).0 ∷ after;
        admitted = credit t (worth (run_out n t w.cost (first ++ last)).1 w.cost) s.admitted;
      })
  times_out-Follows u before after n first last w e f =
      let n' : Node = (run_out n t w.cost (first ++ last)).0 in
      let k : ℕ = worth (run_out n t w.cost (first ++ last)).1 w.cost in
      let s' : System = record s {
        nodes = before ++ n' ∷ after;
        admitted = credit t k s.admitted;
      } in
      let r : Replica = replica_at t n in
      let c : ℕ = effective_cost w.cost in
      let (same, worthless) = run_out_lem n t w.cost (first ++ last) in
      by_tenant cfg max_cost t u s s'
        (stepped cfg max_cost t s before after n n' (credit t k s.admitted) _ _
          (same ∙ ap (λ ws. give_up r c ws) (map-append held first last))
          (credited k worthless ∙ omega arith)
          (λ rate ts.
            One.times_out (map (replica_at t) before) (map (replica_at t) after) r (map held first)
              (map held last) (held w) (at_node cfg max_cost t before after n e)
              (split_map held first last w f)))
        (λ ne.
          unseen cfg max_cost u s before after n n' (credit t k s.admitted) e
            (run_out_other ne n w.cost (first ++ last)) (not_credited u k ne))

  pub fails-Follows :
      (u : String) (before after : List Node) (n : Node) (first last : List Call) (call : Call)
      → s.nodes ≡ before ++ n ∷ after
      → (n.flights t).calls ≡ first ++ call ∷ last
      → Follows cfg max_cost u s
          (record s { nodes = before ++ with_calls n t (first ++ answered failed ∷ last) ∷ after })
  fails-Follows u before after n first last call e f =
      let calls : List Call = first ++ answered failed ∷ last in
      let n' : Node = with_calls n t calls in
      by_tenant cfg max_cost t u s (record s { nodes = before ++ n' ∷ after })
        (stepped cfg max_cost t s before after n n' s.admitted _ _ (with_calls_lem n t calls) refl
          (λ rate ts.
            One.fails (map (replica_at t) before) (map (replica_at t) after) (replica_at t n) first
              last call (at_node cfg max_cost t before after n e) f))
        (λ ne.
          unseen cfg max_cost u s before after n n' s.admitted e (with_calls_other ne n calls) refl)

  pub renews-Follows :
      (u : String) (before after : List Node) (n : Node) (first last : List Call) (reply : Reply)
      (now draw : ℕ)
      → s.nodes ≡ before ++ n ∷ after
      → (n.flights t).calls ≡ first ++ answered reply ∷ last
      → now ≤ s.clock
      → Follows cfg max_cost u s
          (record s { nodes = before ++ renew_ended n t now reply draw (first ++ last) ∷ after })
  renews-Follows u before after n first last reply now draw e f h =
      let n' : Node = renew_ended n t now reply draw (first ++ last) in
      by_tenant cfg max_cost t u s (record s { nodes = before ++ n' ∷ after })
        (stepped cfg max_cost t s before after n n' s.admitted _ _
          (renew_ended_lem n t now reply draw (first ++ last)) refl
          (λ rate ts.
            One.renews (map (replica_at t) before) (map (replica_at t) after) (replica_at t n) first
              last reply now draw (at_node cfg max_cost t before after n e) f h))
        (λ ne.
          unseen cfg max_cost u s before after n n' s.admitted e
            (renew_ended_other ne n now reply draw (first ++ last)) refl)
