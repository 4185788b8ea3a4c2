-- ===== src/Worker/Server/Cost.antt =====
-- Which costs the handler takes, and what it answers.
use ratelimiter.Base.{
  ℕ, zero, suc, ◌≤◌, ◌<◌, ◌≡◌, refl, String, List, [], ◌∷◌, Option, none, some, Bool, true, false,
  arith, inl, inr, Option-cases, ◌∙◌, ap, ltb, ◌==◌, ◌&&◌, ◌||◌, if◌then◌else◌,
}
use ratelimiter.Base.Int.{ℤ, pos, negsuc}
use ratelimiter.Base.Decimal.{decimal, atoi}
use ratelimiter.Worker.Pool.{admit, reject, unknown, Outcome, decided, waits, effective_cost, begin}
use ratelimiter.Worker.Limiter.{Limiter, check}
use ratelimiter.Worker.Limiter.Isolation.{pool_of}
use ratelimiter.Worker.Limiter.Refinement.{check_refines}
use ratelimiter.Worker.Server.{parse_cost, Handled, status, pending, handled, handle_check}

in_range :
    (n : ℕ) (z : ℤ)
    → (if ltb n 1 || ltb 1000 n then none else some (pos n)) ≡ some z
    → (z ≡ pos n) × (1 ≤ n) × (n ≤ 1000)
in_range n z h = ground arith

-- A cost that is read lies between 1 and 1000, whatever the query.
pub parse_cost_bounds :
    (query : List ℕ) (z : ℤ)
    → parse_cost query ≡ some z
    → (n : ℕ) × (z ≡ pos n) × (1 ≤ n) × (n ≤ 1000)
unfolding parse_cost
parse_cost_bounds [] z h = (1, ground arith, omega arith, omega arith)
parse_cost_bounds (c ∷ cs) z h = elim (Option-cases (atoi (c ∷ cs))) [
  | inl e ↦ absurd (ground arith)
  | inr (negsuc n, e) ↦ absurd (ground arith)
  | inr (pos n, e) ↦ let (same, low, high) = in_range n z (ground arith) in (n, same, low, high)
]

-- Whether a cost was read, and is the number.
is_cost : Option ℤ → ℕ → Bool
is_cost none n = false
is_cost (some (negsuc m)) n = false
is_cost (some (pos m)) n = m == n

is_cost_sound : (o : Option ℤ) (n : ℕ) → is_cost o n ≡ true → o ≡ some (pos n)
unfolding is_cost
is_cost_sound none n h = cc
is_cost_sound (some (negsuc m)) n h = cc
is_cost_sound (some (pos m)) n h = ground arith

reads : ℕ → Bool
reads n = is_cost (parse_cost (decimal (suc n))) (suc n)

-- The test holds of the first `k` numbers.
holds_up_to : (ℕ → Bool) → ℕ → Bool
holds_up_to test zero = true
holds_up_to test (suc k) = test k && holds_up_to test k

holds_at : (test : ℕ → Bool) (k n : ℕ) → n < k → holds_up_to test k ≡ true → test n ≡ true
unfolding holds_up_to
holds_at test zero n below h = elim below [ ]
holds_at test (suc k) n below h = ground (arith, holds_at test k n)

thousand_read : holds_up_to reads 1000 ≡ true
unfolding holds_up_to reads is_cost parse_cost decimal atoi
thousand_read = refl

-- What the load generator prints as a cost from 1 to 1000, the handler reads back.
pub parse_cost-decimal : (n : ℕ) → 1 ≤ n → n ≤ 1000 → parse_cost (decimal n) ≡ some (pos n)
unfolding reads
parse_cost-decimal zero h k = absurd (omega arith)
parse_cost-decimal (suc n) h k =
    is_cost_sound (parse_cost (decimal (suc n))) (suc n)
      (holds_at reads 1000 n (omega arith) thousand_read)

-- The code for each way in which `Check` may go on.
abbrev pub code : Outcome → ℤ → Handled
code (decided admit) z = status 200
code (decided reject) z = status 429
code (decided unknown) z = status 404
code (waits chan) z = pending chan z

handled-code : (o : Outcome) (z : ℤ) → handled o z ≡ code o z
unfolding handled
handled-code (decided admit) z = refl
handled-code (decided reject) z = refl
handled-code (decided unknown) z = refl
handled-code (waits chan) z = refl

-- A cost that is no integer from 1 to 1000 is answered 400, and neither the limiter changes nor does
-- a renewal start.
pub handle_check_bad :
    (lm : Limiter) (tenant : String) (query : List ℕ) (now chan : ℕ)
    → parse_cost query ≡ none
    → handle_check lm tenant query now chan ≡ (lm, false, status 400)
unfolding handle_check
handle_check_bad lm tenant query now chan h = ground arith

-- Any other request runs `Check` at the cost that was read, and starts a renewal when it does; an
-- admitted one is answered 200, a rejected one 429, one of a tenant marked unknown 404, and one that
-- waits is pending on the channel of the renewal.
pub handle_check_served :
    (lm : Limiter) (tenant : String) (query : List ℕ) (now chan : ℕ) (z : ℤ)
    → parse_cost query ≡ some z
    → let section = begin (pool_of lm tenant) now (effective_cost z) chan in
      ((handle_check lm tenant query now chan).0 ≡ (check lm tenant z now chan).0)
      × ((handle_check lm tenant query now chan).1 ≡ section.1)
      × ((handle_check lm tenant query now chan).2 ≡ code section.2 z)
unfolding handle_check
handle_check_served lm tenant query now chan z h =
    let ran = check_refines lm tenant z now chan in
    rw (h, handle_check) (refl, ran.1, ap (λ (o : Outcome). handled o z) ran.2 ∙ handled-code _ z)
