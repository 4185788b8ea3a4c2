-- ===== src/Bucket/Examples.antt =====
-- The theorems on the bucket at concrete buckets, and runs of its methods.
use ratelimiter.Base.{ℕ, ◌+◌, ◌-◌, ◌*◌, ◌≤◌, ◌≡◌, refl, List, [], ◌∷◌, arith}
use ratelimiter.Bucket.{Bucket, token, next_token_in, take_all}
use ratelimiter.Bucket.Bounds.{take_all_within_limit}
use ratelimiter.Bucket.Hints.{take_all_starved}

-- 100 tokens a second, and a burst of as many.
abbrev full : Bucket
full = record { rate = 100_000; cap = 100 * token; tokens = 100 * token; last = 0 }

abbrev drained : Bucket
drained = record { rate = 100_000; cap = 100 * token; tokens = 0; last = 0 }

-- Half a token a second.
abbrev slow : Bucket
slow = record { rate = 500; cap = 500_000_000_000; tokens = 500_000_000_000; last = 0 }

abbrev calls : List (ℕ × ℕ)
calls = (10, 5_000_000) ∷ (10, 1_000_000) ∷ (200, 2_000_000_000) ∷ []

calls_take : (take_all full calls).1 ≡ 120
unfolding take_all
calls_take = refl

first_token : (next_token_in drained 0).1 ≡ 10_000_000
unfolding next_token_in
first_token = refl

take_all_within_limit_example :
    token * (take_all full calls).1 ≤ full.cap + full.rate * (2_000_000_000 - full.last)
take_all_within_limit_example =
    take_all_within_limit calls 2_000_000_000 (omega arith) (omega arith) (omega arith)

take_all_starved_example : (take_all slow calls).1 ≡ 0
take_all_starved_example = take_all_starved slow calls (omega arith) (omega arith)
