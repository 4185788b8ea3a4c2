-- ===== src/Loadgen/Kube/Lifecycle/Stored.antt =====
-- `applyDeployment` has stored what it applied.
use ratelimiter.Base.{◌≡◌, refl, subst, some, Bool, true, false, arith, if◌then◌else◌}
use ratelimiter.Loadgen.Kube.Objects.{Deployment}
use ratelimiter.Loadgen.Kube.Client.{
  Client, Result, ok, err, is_not_found, create_deployment, update_deployment, Tries, stops, again,
  IsStoring,
}
use ratelimiter.Loadgen.Kube.Lifecycle.{may_retry, apply_once, apply_deployment}

module _ (c : Client) (storing : IsStoring c) where
  apply_once_stores :
      (d : Deployment) (s s' : c.State)
      → apply_once c d s ≡ (ok tt, s')
      → c.stored s' d.name ≡ some d.spec
  unfolding apply_once
  apply_once_stores d s s' e = by_answer (c.get d.name s).0 (c.get d.name s).1 refl e
    where
      by_answer :
          (answer : Result Deployment) (s1 : c.State)
          → c.get d.name s ≡ (answer, s1)
          → elim answer [
            | err e ↦ if is_not_found e then c.send (create_deployment d) s1 else (err e, s1)
            | ok existing ↦ c.send (update_deployment (record existing { spec = d.spec })) s1
          ]
            ≡ (ok tt, s')
          → c.stored s' d.name ≡ some d.spec
      by_answer (ok existing) s1 g u =
          subst (λ name. c.stored s' name ≡ some d.spec) (storing.get_named d.name s s1 existing g)
            (storing.update_stores (record existing { spec = d.spec }) s1 s' u)
      by_answer (err e) s1 g u = by_kind (is_not_found e) u
        where
          by_kind :
              (absent : Bool)
              → (if absent then c.send (create_deployment d) s1 else (err e, s1)) ≡ (ok tt, s')
              → c.stored s' d.name ≡ some d.spec
          by_kind true u = storing.create_stores d s1 s' u
          by_kind false u = absurd (ground (arith, u))

  Tries-stored :
      (d : Deployment) (s s' : c.State) (out : Result (Unit {0}) × c.State)
      → Tries may_retry (apply_once c d) s out
      → out ≡ (ok tt, s')
      → c.stored s' d.name ≡ some d.spec
  Tries-stored d s s' out (stops _) u = apply_once_stores d s s' u
  Tries-stored d s s' out (again _ s1 next e _ f r tries) u = Tries-stored d next s' out tries u

  -- If `applyDeployment` returns nil, however often it has tried, the API server holds the
  -- specification that was to be applied.
  pub apply_deployment_stores :
      (d : Deployment) (s s' : c.State)
      → apply_deployment c d s ≡ (ok tt, s')
      → c.stored s' d.name ≡ some d.spec
  unfolding apply_deployment
  apply_deployment_stores d s s' e =
      Tries-stored d s s' _ (storing.tries may_retry (apply_once c d) s) e
