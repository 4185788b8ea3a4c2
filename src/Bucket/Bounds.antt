-- ===== src/Bucket/Bounds.antt =====
-- What a bucket may hand out: never more than its balance and what its rate brings in.
use ratelimiter.Base.{
  ℕ, ◌+◌, ◌-◌, ◌*◌, ◌/◌, ◌≤◌, min, ◌≡◌, List, [], ◌∷◌, arith, All, mul_mono, mul-sub, ◌⊎◌,
}
use ratelimiter.Bucket.{Bucket, token, new, refill, take_up_to, take_all}

-- A balance never exceeds the capacity.
pub record IsValid (b : Bucket) : Type 0 where
  pub within : b.tokens ≤ b.cap

-- Nothing but the balance and the time of the last refill ever changes.
pub record SameLimits (b c : Bucket) : Type 0 where
  pub rate : c.rate ≡ b.rate
  pub cap : c.cap ≡ b.cap

pub new-IsValid : (rate capacity now : ℕ) → IsValid (new rate capacity now)
unfolding new
new-IsValid rate capacity now = omega arith

-- A refill brings in at most the rate times the time that it covers, and exactly that below the
-- capacity; it covers the time up to `now`.
pub record Refilled (b c : Bucket) (now : ℕ) : Type 0 where
  pub limits : SameLimits b c
  pub forward : b.last ≤ c.last
  pub reached : now ≤ c.last
  pub honest : (c.last ≡ b.last) ⊎ (c.last ≡ now)
  pub within : b.tokens ≤ b.cap → c.tokens ≤ c.cap
  pub gained : c.tokens + b.rate * b.last ≤ b.tokens + b.rate * c.last
  pub kept : b.tokens ≤ b.cap → b.tokens ≤ c.tokens
  pub exact :
      b.tokens + b.rate * c.last ≤ b.cap + b.rate * b.last
      → c.tokens + b.rate * b.last ≡ b.tokens + b.rate * c.last

pub refill-Refilled : (b : Bucket) (now : ℕ) → Refilled b (refill b now) now
unfolding refill
refill-Refilled b now = ground (arith, mul-sub b.rate b.last now)

-- A grant is the smaller of what is asked for and the whole tokens at hand, and it is a debit.
pub take_up_to_lem :
    (b : Bucket) (n now : ℕ)
    → ((take_up_to b n now).1 ≡ min n ((refill b now).tokens / token))
      × ((take_up_to b n now).0.tokens + token * (take_up_to b n now).1 ≡ (refill b now).tokens)
      × ((take_up_to b n now).0.last ≡ (refill b now).last)
      × SameLimits b (take_up_to b n now).0
unfolding take_up_to
take_up_to_lem b n now = ground (arith, refill-Refilled b now)

pub take_up_to-IsValid : {b : Bucket} (n now : ℕ) → IsValid b → IsValid (take_up_to b n now).0
take_up_to-IsValid {b} n now v = ground (arith, take_up_to_lem b n now, refill-Refilled b now)

-- One call against the balance: the units that leave the bucket are covered by its balance and by
-- what the rate brings in up to the new refill time.
pub take_up_to-gained :
    (b : Bucket) (n now : ℕ)
    → let b' = (take_up_to b n now).0 in
      (token * (take_up_to b n now).1 + b'.tokens + b.rate * b.last ≤ b.tokens + b.rate * b'.last)
      × (b.last ≤ b'.last)
take_up_to-gained b n now = ground (arith, take_up_to_lem b n now, refill-Refilled b now)

-- The core guarantee: whatever calls are made, with clock readings of any order, what a bucket hands
-- out is covered by its balance and by its rate over the time from one refill to the other.
pub take_all-gained :
    (b : Bucket) (calls : List (ℕ × ℕ))
    → let b' = (take_all b calls).0 in
      (token * (take_all b calls).1 + b'.tokens + b.rate * b.last ≤ b.tokens + b.rate * b'.last)
      × (b.last ≤ b'.last)
      × SameLimits b b'
unfolding take_all
take_all-gained b [] = omega arith
take_all-gained b ((n, now) ∷ calls) =
    let b' = (take_up_to b n now).0 in
    ground (arith, take_up_to-gained b n now, take_up_to_lem b n now, take_all-gained b' calls)

-- No refill passes the latest reading of the clock.
pub take_all-last :
    (b : Bucket) (calls : List (ℕ × ℕ)) (end : ℕ)
    → b.last ≤ end
    → All (λ call. call.1 ≤ end) calls
    → (take_all b calls).0.last ≤ end
unfolding take_all
take_all-last b [] end h k = h
take_all-last b ((n, now) ∷ calls) end h k =
    let b' = (take_up_to b n now).0 in
    ground (arith, take_up_to_lem b n now, refill-Refilled b now, take_all-last b' calls end)

pub take_all-IsValid :
    {b : Bucket} (calls : List (ℕ × ℕ)) → IsValid b → IsValid (take_all b calls).0
unfolding take_all
take_all-IsValid {b} [] v = v
take_all-IsValid {b} ((n, now) ∷ calls) v =
    take_all-IsValid {b = (take_up_to b n now).0} calls (take_up_to-IsValid n now v)

-- For a bucket whose balance is within its capacity, and any sequence of `TakeUpTo` calls whose clock
-- readings, in any order, are at most `end`, the tokens handed out are at most the burst capacity
-- plus the rate times the time since the last refill.
pub take_all_within_limit :
    {b : Bucket} (calls : List (ℕ × ℕ)) (end : ℕ)
    → IsValid b
    → b.last ≤ end
    → All (λ call. call.1 ≤ end) calls
    → token * (take_all b calls).1 ≤ b.cap + b.rate * (end - b.last)
take_all_within_limit {b} calls end v h k = ground (
  arith,
  take_all-gained b calls,
  take_all-last b calls end h k,
  mul-sub b.rate b.last end h,
  mul_mono b.rate (take_all b calls).0.last end,
)

-- Nothing is lost either: a call at `now`, by when the bucket would not have overflowed, debits
-- exactly what it grants from the balance and the whole income since the last refill.
pub take_up_to_exact :
    (b : Bucket) (n now : ℕ)
    → b.last ≤ now
    → b.tokens + b.rate * (now - b.last) ≤ b.cap
    → token * (take_up_to b n now).1 + (take_up_to b n now).0.tokens
      ≡ b.tokens + b.rate * (now - b.last)
take_up_to_exact b n now h k =
    ground (arith, take_up_to_lem b n now, refill-Refilled b now, mul-sub b.rate b.last now h)
