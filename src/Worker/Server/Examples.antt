-- ===== src/Worker/Server/Examples.antt =====
-- The theorems on the handler of checks at concrete queries.
use ratelimiter.Base.{ℕ, ◌≡◌, refl, List, [], ◌∷◌, none, some}
use ratelimiter.Base.Int.{pos}
use ratelimiter.Base.Decimal.{atoi}
use ratelimiter.Worker.Server.{parse_cost}

-- "12" and "1x"
abbrev twelve : List ℕ
twelve = b'1' ∷ b'2' ∷ []

abbrev garbage : List ℕ
garbage = b'1' ∷ b'x' ∷ []

twelve_read : parse_cost twelve ≡ some (pos 12)
unfolding parse_cost atoi
twelve_read = refl

garbage_refused : parse_cost garbage ≡ none
unfolding parse_cost atoi
garbage_refused = refl
