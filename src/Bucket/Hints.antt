-- ===== src/Bucket/Hints.antt =====
-- When a bucket grants: the hint of `NextTokenIn`, and the bucket that is too small to grant at all.
use ratelimiter.Base.{
  ℕ, ◌+◌, ◌-◌, ◌*◌, ◌≤◌, ◌<◌, ◌≡◌, refl, List, [], ◌∷◌, arith, mul_mono, div_bounds,
}
use native.Mathlib.Decide.{dec_lt}
use ratelimiter.Bucket.{Bucket, token, refill, take_up_to, next_token_in, take_all}
use ratelimiter.Bucket.Bounds.{IsValid, refill-Refilled, take_up_to_lem, take_up_to-IsValid}

-- `NextTokenIn` refills and does nothing else to the bucket.
pub next_token_in-refill : (b : Bucket) (now : ℕ) → (next_token_in b now).0 ≡ refill b now
unfolding next_token_in
next_token_in-refill b now = ground arith

-- Below one token, the wait is the missing part over the rate, rounded down.
pub next_token_in_bounds :
    (b : Bucket) (now : ℕ)
    → 0 < b.rate
    → (refill b now).tokens < token
    → let wait = (next_token_in b now).1 in
      (b.rate * wait ≤ token - (refill b now).tokens)
      × (token - (refill b now).tokens < b.rate * (wait + 1))
unfolding next_token_in
next_token_in_bounds b now pos low =
    ground
      (arith, refill-Refilled b now, div_bounds (token - (refill b now).tokens) (refill b now).rate)

-- A bucket that holds one token after its refill grants a call for at least one.
take_up_to-pos :
    (b : Bucket) (n now : ℕ) → 0 < n → token ≤ (refill b now).tokens → 0 < (take_up_to b n now).1
take_up_to-pos b n now some_asked full = ground (arith, take_up_to_lem b n now)

-- A refill late enough reaches one token.
refill_late :
    (b : Bucket) (now d : ℕ)
    → token ≤ b.cap
    → b.tokens ≤ b.cap
    → b.last + d ≤ now
    → token ≤ b.tokens + b.rate * d
    → token ≤ (refill b now).tokens
unfolding refill
refill_late b now d room v late enough = ground (arith, mul_mono b.rate d (now - b.last))

-- If the capacity is at least one token, a call for one token or more, made at least one nanosecond
-- later than the hint of `NextTokenIn` says, is granted something.
pub next_token_in_suffices :
    (b : Bucket) (n now later : ℕ)
    → IsValid b
    → 0 < b.rate
    → token ≤ b.cap
    → b.last ≤ now
    → 0 < n
    → now + (next_token_in b now).1 + 1 ≤ later
    → 0 < (take_up_to (next_token_in b now).0 n later).1
next_token_in_suffices b n now later v pos room fresh asked late = rw (next_token_in-refill b now) (
    take_up_to-pos c n later asked (
      refill_late c later (later - now) (ground (arith, refill-Refilled b now))
        (ground (arith, refill-Refilled b now)) (ground (arith, refill-Refilled b now)) enough))
  where
    c : Bucket
    c = refill b now

    enough : token ≤ c.tokens + c.rate * (later - now)
    enough = elim (dec_lt c.tokens token) [
      | yes low ↦ ground (
        arith,
        refill-Refilled b now,
        next_token_in_bounds b now pos low,
        mul_mono b.rate ((next_token_in b now).1 + 1) (later - now),
      )
      | no high ↦ omega arith
    ]

-- A bucket whose capacity is below one token never grants anything, whatever the calls.
pub take_all_starved :
    (b : Bucket) (calls : List (ℕ × ℕ)) → IsValid b → b.cap < token → (take_all b calls).1 ≡ 0
unfolding take_all
take_all_starved b [] v small = refl
take_all_starved b ((n, now) ∷ calls) v small =
    let b' = (take_up_to b n now).0 in
    ground (
      arith,
      take_up_to_lem b n now,
      refill-Refilled b now,
      take_up_to-IsValid n now v,
      take_all_starved b' calls,
    )
