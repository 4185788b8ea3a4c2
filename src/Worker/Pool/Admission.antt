-- ===== src/Worker/Pool/Admission.antt =====
-- When a request is admitted, what it takes, and when it may wait.
use ratelimiter.Base.{ℕ, ◌+◌, ◌≤◌, ◌<◌, ◌≡◌, ◌↔◌, ◌⊎◌, true, false, some, arith, ltb, if◌then◌else◌}
use ratelimiter.Base.Int.{ℤ, pos, negsuc}
use ratelimiter.Worker.Pool.{
  Pool, Decision, admit, reject, unknown, Outcome, decided, waits, effective_cost, begin, resume,
}

-- The tokens that a decision takes.
abbrev pub spent : Decision → ℕ → ℕ
spent admit cost = cost
spent reject cost = 0
spent unknown cost = 0

abbrev pub spent_at : Outcome → ℕ → ℕ
spent_at (decided d) cost = spent d cost
spent_at (waits chan) cost = 0

pub effective_cost-pos : (z : ℤ) → 0 < effective_cost z
unfolding effective_cost
effective_cost-pos (pos n) = ground arith
effective_cost-pos (negsuc n) = omega arith

-- The pool's tokens, expired ones not counted.
abbrev pub live_tokens : Pool → ℕ → ℕ
live_tokens p now = if ltb now p.expiry then p.tokens else 0

-- A request with a cost of at least 1 is admitted at once exactly when its tenant is not marked
-- unknown and the pool holds its cost in tokens that have not expired.
pub begin_admits_iff :
    (p : Pool) (now cost chan : ℕ)
    → 0 < cost
    → ((begin p now cost chan).2 ≡ decided admit)
      ↔ ((p.unknown_until ≤ now) × (cost ≤ p.tokens) × (now < p.expiry))
unfolding begin
begin_admits_iff p now cost chan h = (λ e. ground arith, λ e. ground arith)

-- The first critical section takes the cost of an admitted request, whole, out of the tokens that
-- have not expired; a request that is not admitted takes nothing, and expired tokens are dropped
-- unless the tenant is marked unknown.
pub begin_tokens :
    (p : Pool) (now cost chan : ℕ)
    → p.unknown_until ≤ now
    → 0 < cost
    → (begin p now cost chan).0.tokens + spent_at (begin p now cost chan).2 cost ≡ live_tokens p now
unfolding begin
begin_tokens p now cost chan h k = ground arith

-- A tenant marked unknown is answered so, and its pool is left alone.
pub begin_unknown :
    (p : Pool) (now cost chan : ℕ)
    → now < p.unknown_until
    → begin p now cost chan ≡ (p, false, decided unknown)
unfolding begin
begin_unknown p now cost chan h = ground arith

-- A request waits only on the renewal in flight, only if the pool cannot pay for it, only if no
-- zero grant and no failure holds the next renewal back, and only if the pool never had a grant or
-- the last one expired.
pub begin_waits :
    (p : Pool) (now cost chan waited : ℕ)
    → 0 < cost
    → (begin p now cost chan).2 ≡ waits waited
    → ((begin p now cost chan).0.renew_done ≡ some waited)
      × ((begin p now cost chan).0.renewing ≡ true)
      × (live_tokens p now < cost)
      × (p.next_try ≡ 0)
      × ((p.last_grant ≡ 0) ⊎ (p.expiry ≤ now))
unfolding begin
begin_waits p now cost chan waited k h = ground arith

-- After a wait a request is admitted exactly when the tenant is not marked unknown and the pool holds
-- the cost in tokens that have not expired; the cost is then taken, and nothing otherwise.
pub resume_lem :
    (p : Pool) (now cost : ℕ)
    → (((resume p now cost).1 ≡ admit)
        ↔ ((p.unknown_until ≤ now) × (cost ≤ p.tokens) × (now < p.expiry)))
      × ((resume p now cost).0.tokens + spent (resume p now cost).1 cost ≡ p.tokens)
unfolding resume
resume_lem p now cost = ((λ h. ground arith, λ h. ground arith), ground arith)

-- What a pool loses in the first critical section covers what the request takes.
pub begin_spends :
    (p : Pool) (now cost chan : ℕ)
    → (begin p now cost chan).0.tokens + spent_at (begin p now cost chan).2 cost ≤ p.tokens
unfolding begin
begin_spends p now cost chan = ground arith
