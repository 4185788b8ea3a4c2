-- ===== src/Loadgen/Kube/Lifecycle/Killed.antt =====
-- What `KillOneWorkerNoReplacement` and `KillCoordinator` send to the cluster.
use mathlib.Core.List.{append-nil, append_assoc}
use ratelimiter.Base.{
  ℕ, ◌+◌, ◌≤◌, ◌<◌, ◌≡◌, refl, sym, ap, ◌∙◌, arith, String, List, [], ◌∷◌, ◌++◌, map, Bool, true,
  false, length,
}
use ratelimiter.Loadgen.Kube.Objects.{Pod, coordinator_name, worker_name}
use ratelimiter.Loadgen.Kube.Client.{
  Client, Error, Result, ok, err, is_not_found, Call, scale, mark_cheapest, force_delete,
}
use ratelimiter.Loadgen.Kube.Lifecycle.Pods.{IsVictim}
use ratelimiter.Loadgen.Kube.Lifecycle.{
  live_pods, sort_pods, Logged, pods, delete_all, kill_coordinator,
}

module _ (c : Client) where
  -- How the kill of a worker ends, from the state `s` on: nothing is sent if there are not two live
  -- workers; and if there are, one of them is marked, then the deployment is scaled to one less,
  -- which is at least 1, and then the marked one is deleted, each call if the one before it was
  -- answered ok. The name is returned if all three were, and otherwise the error of the last one.
  pub data Kill (log : List Call) (listed : List Pod) (s : c.State)
      : Result String × Logged c → Type 0 where
    too_few : (e : Error) → length (live_pods listed) < 2 → Kill log listed s (err e, (log, s))
    not_marked :
        (p : Pod) (e : Error) (s1 : c.State)
        → IsVictim listed p
        → c.send (mark_cheapest p.name) s ≡ (err e, s1)
        → Kill log listed s (err e, (log ++ mark_cheapest p.name ∷ [], s1))
    not_scaled :
        (p : Pod) (n : ℕ) (e : Error) (s1 s2 : c.State)
        → IsVictim listed p
        → 1 ≤ n
        → n + 1 ≡ length (live_pods listed)
        → c.send (mark_cheapest p.name) s ≡ (ok tt, s1)
        → c.send (scale worker_name n) s1 ≡ (err e, s2)
        → Kill log listed s (err e, (log ++ mark_cheapest p.name ∷ scale worker_name n ∷ [], s2))
    not_deleted :
        (p : Pod) (n : ℕ) (e : Error) (s1 s2 s3 : c.State)
        → IsVictim listed p
        → 1 ≤ n
        → n + 1 ≡ length (live_pods listed)
        → c.send (mark_cheapest p.name) s ≡ (ok tt, s1)
        → c.send (scale worker_name n) s1 ≡ (ok tt, s2)
        → c.send (force_delete p.name) s2 ≡ (err e, s3)
        → Kill log listed s (
          err e,
          (log ++ mark_cheapest p.name ∷ scale worker_name n ∷ force_delete p.name ∷ [], s3),
        )
    killed :
        (p : Pod) (n : ℕ) (s1 s2 s3 : c.State)
        → IsVictim listed p
        → 1 ≤ n
        → n + 1 ≡ length (live_pods listed)
        → c.send (mark_cheapest p.name) s ≡ (ok tt, s1)
        → c.send (scale worker_name n) s1 ≡ (ok tt, s2)
        → c.send (force_delete p.name) s2 ≡ (ok tt, s3)
        → Kill log listed s (
          ok p.name,
          (log ++ mark_cheapest p.name ∷ scale worker_name n ∷ force_delete p.name ∷ [], s3),
        )

  pods_listed :
      (role : String) (s s1 : c.State) (listed : List Pod)
      → c.list_pods role s ≡ (ok listed, s1)
      → pods c role s ≡ (ok (sort_pods (live_pods listed)), s1)
  unfolding pods
  pods_listed role s s1 listed e = rw (ap (λ o. o.0) e, ap (λ o. o.1) e, pods) refl

  delete_all_sent :
      (ps : List Pod) (log log' : List Call) (s s' : c.State)
      → delete_all c ps (log, s) ≡ (ok tt, (log', s'))
      → log' ≡ log ++ map (λ p. force_delete p.name) ps
  unfolding delete_all
  delete_all_sent [] log log' s s' e = sym (ap (λ o. o.1.0) e) ∙ sym (append-nil log)
  delete_all_sent (p ∷ ps) log log' s s' e =
      let s1 = (c.send (force_delete p.name) s).1 in
      go s1
        (λ e.
          delete_all_sent ps (log ++ force_delete p.name ∷ []) log' s1 s' e
          ∙ append_assoc log (force_delete p.name ∷ []) (map (λ p. force_delete p.name) ps))
        (c.send (force_delete p.name) s).0 e
    where
      Sent : Type 0
      Sent = log' ≡ log ++ force_delete p.name ∷ map (λ p. force_delete p.name) ps

      by_kind :
          (s1 : c.State) (gone : Bool) (e' : Error)
          → (delete_all c ps (log ++ force_delete p.name ∷ [], s1) ≡ (ok tt, (log', s')) → Sent)
          → ◌≡◌ {A = Result (Unit {0}) × Logged c}
              (elim gone [
                | true ↦ delete_all c ps (log ++ force_delete p.name ∷ [], s1)
                | false ↦ (err e', (log ++ force_delete p.name ∷ [], s1))
              ])
              (ok tt, (log', s'))
          → Sent
      by_kind s1 true e' rest e = rest e
      by_kind s1 false e' rest e = absurd (ground (arith, ap (λ o. o.0) e))

      go :
          (s1 : c.State)
          → (delete_all c ps (log ++ force_delete p.name ∷ [], s1) ≡ (ok tt, (log', s')) → Sent)
          → (answer : Result (Unit {0}))
          → ◌≡◌ {A = Result (Unit {0}) × Logged c}
              (elim answer [
                | ok _ ↦ delete_all c ps (log ++ force_delete p.name ∷ [], s1)
                | err e' ↦ elim (is_not_found e') [
                  | true ↦ delete_all c ps (log ++ force_delete p.name ∷ [], s1)
                  | false ↦ (err e', (log ++ force_delete p.name ∷ [], s1))
                ]
              ])
              (ok tt, (log', s'))
          → Sent
      go s1 rest (ok u) e = rest e
      go s1 rest (err e') e = by_kind s1 (is_not_found e') e' rest e

  -- `KillCoordinator`, once it returns nil: it has scaled the coordinator to zero before anything
  -- else, and has then sent the deletion of each live pod of the coordinator that was listed.
  pub kill_coordinator_sent :
      (log log' : List Call) (s s' s1 : c.State) (listed : List Pod)
      → c.list_pods "coordinator" (c.send (scale coordinator_name 0) s).1 ≡ (ok listed, s1)
      → kill_coordinator c (log, s) ≡ (ok tt, (log', s'))
      → log'
        ≡ log
          ++ scale coordinator_name 0
            ∷ map (λ p. force_delete p.name) (sort_pods (live_pods listed))
  unfolding kill_coordinator
  kill_coordinator_sent log log' s s' s1 listed l e = go (c.send (scale coordinator_name 0) s).0 e
    where
      s2 : c.State
      s2 = (c.send (scale coordinator_name 0) s).1

      started : List Call
      started = log ++ scale coordinator_name 0 ∷ []

      by_list :
          (found : Result (List Pod)) (s3 : c.State)
          → found ≡ ok (sort_pods (live_pods listed))
          → ◌≡◌ {A = Result (Unit {0}) × Logged c}
              (elim found [
                | err e ↦ (err e, (started, s3))
                | ok ps ↦ delete_all c ps (started, s3)
              ])
              (ok tt, (log', s'))
          → log'
            ≡ log
              ++ scale coordinator_name 0
                ∷ map (λ p. force_delete p.name) (sort_pods (live_pods listed))
      by_list (err e') s3 f e = absurd (ground (arith, f))
      by_list (ok ps) s3 f e =
          let same : ps ≡ sort_pods (live_pods listed) = ground (arith, f) in
          delete_all_sent (sort_pods (live_pods listed)) started log' s3 s' (rw same at e)
          ∙ append_assoc log (scale coordinator_name 0 ∷ [])
              (map (λ p. force_delete p.name) (sort_pods (live_pods listed)))

      go :
          (scaled : Result (Unit {0}))
          → ◌≡◌ {A = Result (Unit {0}) × Logged c}
              (elim scaled [
                | err e ↦ (err e, (started, s2))
                | ok _ ↦ elim (pods c "coordinator" s2).0 [
                  | err e ↦ (err e, (started, (pods c "coordinator" s2).1))
                  | ok ps ↦ delete_all c ps (started, (pods c "coordinator" s2).1)
                ]
              ])
              (ok tt, (log', s'))
          → log'
            ≡ log
              ++ scale coordinator_name 0
                ∷ map (λ p. force_delete p.name) (sort_pods (live_pods listed))
      go (err e') e = absurd (ground (arith, ap (λ o. o.0) e))
      go (ok u) e =
          by_list (pods c "coordinator" s2).0 (pods c "coordinator" s2).1
            (ap (λ o. o.0) (pods_listed "coordinator" s2 s1 listed l)) e
