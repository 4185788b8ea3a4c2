-- ===== src/Worker/Server.antt =====
-- internal/worker/server.go, `Server`: GET /v1/check/{tenant} over the limiter.
-- The router and the query parser are outside the repository: the handler takes the tenant of the
-- path and the codes of the first `cost` of the query, none if there is none or it is empty.
pub mod Cost
mod Examples
use ratelimiter.Base.{
  ℕ, Bool, true, false, ◌||◌, String, List, [], ◌∷◌, Option, none, some, ltb, if◌then◌else◌,
}
use ratelimiter.Base.Int.{ℤ, pos, negsuc, is_below}
use ratelimiter.Base.Decimal.{atoi}
use ratelimiter.Worker.Pool.{Decision, admit, reject, unknown, Outcome, decided, waits}
use ratelimiter.Worker.Limiter.{Limiter, check}

-- The cost of the query: 1 by default, `none` if it is no integer in [1,1000].
unfoldable pub parse_cost : List ℕ → Option ℤ
parse_cost [] = some (pos 1)
parse_cost (c ∷ cs) = elim (atoi (c ∷ cs)) [
  | none ↦ none
  | some (negsuc n) ↦ none
  | some (pos n) ↦ if ltb n 1 || ltb 1000 n then none else some (pos n)
]

-- The status code of a decision.
unfoldable pub status_of : Decision → ℕ
status_of admit = 200
status_of reject = 429
status_of unknown = 404

-- How the handler goes on: a status, or a wait on a channel with the cost that was read.
pub data Handled : Type 0 where
  status : ℕ → Handled
  pending : (chan : ℕ) → (cost : ℤ) → Handled

unfoldable pub handled : Outcome → ℤ → Handled
unfolding status_of
handled (decided d) cost = status (status_of d)
handled (waits chan) cost = pending chan cost

-- `handleCheck`: the limiter, whether a renewal starts, and how the handler goes on.
unfoldable pub handle_check : Limiter → String → List ℕ → ℕ → ℕ → Limiter × Bool × Handled
handle_check lm tenant query now chan = elim (parse_cost query) [
  | none ↦ (lm, false, status 400)
  | some cost ↦ let (lm', need, o) = check lm tenant cost now chan in (lm', need, handled o cost)
]
