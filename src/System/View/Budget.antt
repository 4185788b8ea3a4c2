-- ===== src/System/View/Budget.antt =====
-- What a worker spends of a tenant's tokens, it had.
use ratelimiter.Base.{
  ℕ, ◌+◌, ◌≤◌, ◌≡◌, ap, String, List, ◌∷◌, ◌++◌, map, Option-cases, inl, inr, arith,
}
use ratelimiter.Base.Int.{ℤ}
use ratelimiter.Worker.Pool.{Reply, effective_cost}
use ratelimiter.Worker.Replica.{Call, answered}
use ratelimiter.Worker.Replica.Flight.{outstanding}
use ratelimiter.Worker.Replica.Budget.{check_budget, wake_budget, give_up_budget, renewed_budget}
use ratelimiter.Worker.Server.{parse_cost}
use ratelimiter.System.Nodes.{Waiting, Node, arrive, go_on, run_out, renew_ended, worth, worth_now}
use ratelimiter.System.View.{held, replica_at, arrive_lem, arrive_bad}
use ratelimiter.System.View.Sections.{go_on_lem, run_out_lem, renew_ended_lem}

-- What a worker holds of a tenant's tokens, in its pool and in calls that were answered.
abbrev pub tokens_at : String → Node → ℕ
tokens_at u n = outstanding (replica_at u n)

module _ (t : String) where
  -- What a request spends at arrival it had.
  pub arrive_budget :
      (n : Node) (query : List ℕ) (now : ℕ)
      → tokens_at t (arrive n t query now).0 + worth_now (arrive n t query now).1 query
        ≤ tokens_at t n
  arrive_budget n query now = elim (Option-cases (parse_cost query)) [
    | inl bad ↦
        let (same, zero_worth) = arrive_bad n t t query now bad in
        omega (arith, ap outstanding same, zero_worth)
    | inr (z, good) ↦
        let (same, worth_it) = arrive_lem n t query now z good in
        omega (
          arith,
          ap outstanding same,
          worth_it,
          check_budget (replica_at t n) now (effective_cost z),
        )
  ]

  pub go_on_budget :
      (n : Node) (z : ℤ) (others : List Waiting) (now : ℕ)
      → tokens_at t (go_on n t z others now).0 + worth (go_on n t z others now).1 z ≤ tokens_at t n
  go_on_budget n z others now =
      let (same, worth_it) = go_on_lem n t z others now in
      omega (
        arith,
        ap outstanding same,
        worth_it,
        wake_budget (replica_at t n) now (effective_cost z) (map held others),
      )

  pub run_out_budget :
      (n : Node) (z : ℤ) (others : List Waiting)
      → tokens_at t (run_out n t z others).0 + worth (run_out n t z others).1 z ≤ tokens_at t n
  run_out_budget n z others =
      let (same, worthless) = run_out_lem n t z others in
      omega (
        arith,
        ap outstanding same,
        worthless,
        give_up_budget (replica_at t n) (effective_cost z) (map held others),
      )

  pub renew_ended_budget :
      (n : Node) (first last : List Call) (reply : Reply) (now draw : ℕ)
      → (n.flights t).calls ≡ first ++ answered reply ∷ last
      → tokens_at t (renew_ended n t now reply draw (first ++ last)) ≤ tokens_at t n
  renew_ended_budget n first last reply now draw f = omega (
    arith,
    ap outstanding (renew_ended_lem n t now reply draw (first ++ last)),
    renewed_budget (replica_at t n) now reply draw first last f,
  )
