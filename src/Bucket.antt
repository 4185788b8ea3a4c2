-- ===== src/Bucket.antt =====
-- internal/bucket/bucket.go: the token bucket.
-- The source keeps `tokens`, `cap` and `rate` as float64. Here they are exact: a rate is a number of
-- thousandths of a token per second, a time a number of nanoseconds, and a balance a number of units
-- of 10^-12 token, so that `elapsed * rate` is a whole number of units. The mutex makes each
-- method atomic, and so a function on the state.
pub mod Bounds
pub mod Hints
mod Examples
use ratelimiter.Base.{
  ℕ, ◌+◌, ◌-◌, ◌*◌, ◌/◌, min, String, List, [], ◌∷◌, ltb, leb, ◌==◌, if◌then◌else◌,
}

-- One whole token, in units.
abbrev pub token : ℕ
token = 1_000_000_000_000

-- `now` and `last` in nanoseconds, `rate` in thousandths of a token per second, the rest in units.
pub record Bucket : Type 0 where
  pub rate : ℕ
  pub cap : ℕ
  pub tokens : ℕ
  pub last : ℕ

-- A new bucket is full.
unfoldable pub new : ℕ → ℕ → ℕ → Bucket
new rate capacity now = record { rate = rate; cap = capacity; tokens = capacity; last = now }

-- `refillLocked`
unfoldable pub refill : Bucket → ℕ → Bucket
refill b now =
    if ltb b.last now
    then record b { tokens = min b.cap (b.tokens + (now - b.last) * b.rate); last = now }
    else b

-- `TakeUpTo`: the bucket after it, and the whole tokens taken.
unfoldable pub take_up_to : Bucket → ℕ → ℕ → Bucket × ℕ
unfolding refill
take_up_to b n now =
    let b' = refill b now in
    let whole : ℕ = b'.tokens / token in
    if leb whole 0
    then (b', 0)
    else let take : ℕ = if ltb n whole then n else whole in
      (record b' { tokens = b'.tokens - take * token }, take)

-- `NextTokenIn`: nanoseconds, rounded down by the conversion to `time.Duration`.
unfoldable pub next_token_in : Bucket → ℕ → Bucket × ℕ
unfolding refill
next_token_in b now =
    let b' = refill b now in
    if leb token b'.tokens then (b', 0) else (b', (token - b'.tokens) / b'.rate)

-- A history of `TakeUpTo` calls, each with its size and its own reading of the clock: the bucket
-- after it, and all that it handed out.
unfoldable pub take_all : Bucket → List (ℕ × ℕ) → Bucket × ℕ
unfolding take_up_to
take_all b [] = (b, 0)
take_all b ((n, now) ∷ calls) =
    let (b', taken) = take_up_to b n now in
    let (b'', rest) = take_all b' calls in (b'', taken + rest)
