-- ===== src/Loadgen/Kube/Simulated.antt =====
-- A cluster that answers at once, at which the theorems on internal/loadgen/kube.go are applied: it
-- stores deployments, whose pods are always ready, and keeps a list of pods and a clock.
mod Tests
use mathlib.Core.Option
use ratelimiter.Base.{
  ℕ, zero, suc, ◌+◌, ◌≤◌, ◌≡◌, refl, ap, sym, subst, arith, String, str_eq, List, [], ◌∷◌, Option,
  none, some, Bool, true, false, Bool-cases, inl, inr, if◌then◌else◌,
}
use ratelimiter.Base.Dict.{lookup, insert, lookup-insert_self}
use ratelimiter.Loadgen.Kube.Objects.{Deployment, DeploymentSpec, DeploymentStatus, Pod}
use ratelimiter.Loadgen.Kube.Client.{
  Client, Error, not_found, Result, ok, err, Call, create_deployment, update_deployment,
  create_service, scale, mark_cheapest, force_delete, Tries, stops, again, IsClocked, IsStoring,
}

pub record Sim : Type 0 where
  pub clock : ℕ
  pub deployments : List (String × Deployment)
  pub pods : List Pod

abbrev without : String → List Pod → List Pod
without name [] = []
without name (p ∷ ps) = if str_eq p.name name then ps else p ∷ without name ps

store : Deployment → Sim → Sim
unfolding insert
store d s = record s { clock = s.clock + 1; deployments = insert d.name d s.deployments }

unfoldable pub sim_send : Call → Sim → Result (Unit {0}) × Sim
unfolding store
sim_send (create_deployment d) s = (ok tt, store d s)
sim_send (update_deployment d) s = (ok tt, store d s)
sim_send (create_service sv) s = (ok tt, s)
sim_send (scale name n) s = (ok tt, s)
sim_send (mark_cheapest name) s = (ok tt, s)
sim_send (force_delete name) s = (ok tt, record s { pods = without name s.pods })

-- A deployment under its name, with all its replicas ready.
abbrev served : String → Deployment → Deployment
served name d = record d {
  name = name;
  status = record {
    replicas = d.spec.replicas;
    ready_replicas = d.spec.replicas;
    updated_replicas = d.spec.replicas;
    observed_generation = d.generation;
  };
}

unfoldable pub answered : String → Option Deployment → Result Deployment
answered name none = err not_found
answered name (some d) = ok (served name d)

-- Four tries.
unfoldable pub try_again :
    ℕ → (Error → Bool) → (Sim → Result (Unit {0}) × Sim) → Sim → Result (Unit {0}) × Sim
try_again zero may_retry f s = f s
try_again (suc n) may_retry f s =
    let (r, s') = f s in
    elim r [
      | ok u ↦ (ok u, s')
      | err e ↦ elim (may_retry e) [ true ↦ try_again n may_retry f s' | false ↦ (err e, s') ]
    ]

abbrev pub simulated : Client
simulated = record {
  State = Sim;
  now = λ s. s.clock;
  send = sim_send;
  get = λ name s. (answered name (lookup name s.deployments), s);
  list_pods = λ role s. (ok s.pods, s);
  fetch = λ url s. (ok 200, record s { clock = s.clock + 1 });
  worker_stats = λ p s. (ok (("tenant-hi", ("admitted", s.clock) ∷ []) ∷ []), s);
  wait = λ d s. (ok tt, record s { clock = s.clock + d });
  on_error = try_again 3;
  stored = λ s name. Option.map (λ d. d.spec) (lookup name s.deployments);
}

pub simulated-IsClocked : IsClocked simulated
simulated-IsClocked = record {
  get_takes = λ name s. omega arith;
  fetch_takes = λ url s. omega arith;
  list_takes = λ role s. omega arith;
  stats_takes = λ p s. omega arith;
  wait_takes = λ d s s' e.
      let h : s.clock + d ≡ s'.clock = ap (λ (o : Result (Unit {0}) × Sim). o.1.clock) e in
      omega (arith, h);
  wait_fails = λ d s s' e' e. absurd (ground (arith, ap (λ o. o.0) e));
}

try_again-Tries :
    (n : ℕ) (may_retry : Error → Bool) (f : Sim → Result (Unit {0}) × Sim) (s : Sim)
    → Tries may_retry f s (try_again n may_retry f s)
unfolding try_again
try_again-Tries zero may_retry f s = stops s
try_again-Tries (suc n) may_retry f s =
    go (f s).0 (f s).1 refl (try_again-Tries n may_retry f (f s).1)
  where
    go :
        (r : Result (Unit {0})) (s' : Sim)
        → f s ≡ (r, s')
        → Tries may_retry f s' (try_again n may_retry f s')
        → Tries may_retry f s (elim r [
          | ok u ↦ (ok u, s')
          | err e ↦ elim (may_retry e) [ true ↦ try_again n may_retry f s' | false ↦ (err e, s') ]
        ])
    go (ok u) s' p rest = subst (λ o. Tries may_retry f s o) p (stops s)
    go (err e) s' p rest = by_kind (may_retry e) refl
      where
        by_kind :
            (b : Bool)
            → may_retry e ≡ b
            → Tries may_retry f s
                (elim b [ true ↦ try_again n may_retry f s' | false ↦ (err e, s') ])
        by_kind true q = again s s' s' e _ p q rest
        by_kind false q = subst (λ o. Tries may_retry f s o) p (stops s)

names :
    (name : String) (o : Option Deployment) (d : Deployment)
    → answered name o ≡ ok d
    → d.name ≡ name
unfolding answered
names name none d e = absurd (ground (arith, e))
names name (some d') d e =
    let same : served name d' ≡ d = ground (arith, e) in sym (ap (λ (x : Deployment). x.name) same)

stores :
    (d : Deployment) (s s' : Sim)
    → ◌≡◌ {A = Result (Unit {0}) × Sim} (ok tt, store d s) (ok tt, s')
    → Option.map (λ (d : Deployment). d.spec) (lookup d.name s'.deployments) ≡ some d.spec
unfolding store
stores d s s' e =
    let same : insert d.name d s.deployments ≡ s'.deployments =
      ap (λ (o : Result (Unit {0}) × Sim). o.1.deployments) e in
    rw (← same) (rw (lookup-insert_self d.name d s.deployments) refl)

pub simulated-IsStoring : IsStoring simulated
unfolding sim_send
simulated-IsStoring = record {
  get_named = λ name s s' d e.
      names name (lookup name s.deployments) d (ap (λ (o : Result Deployment × Sim). o.0) e);
  create_stores = λ d s s' e. stores d s s' e;
  update_stores = λ d s s' e. stores d s s' e;
  tries = try_again-Tries 3;
}
