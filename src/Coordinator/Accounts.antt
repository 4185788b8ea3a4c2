-- ===== src/Coordinator/Accounts.antt =====
-- One tenant of the coordinator: its books, and what a lease call promises.
use ratelimiter.Base.{ℕ, ◌+◌, ◌*◌, ◌/◌, ◌≤◌, ◌<◌, min, ◌≡◌, ◌⊎◌, arith, if◌then◌else◌, ◌==◌, ap}
use ratelimiter.Base.Int.{ℤ, to_nat}
use ratelimiter.Bucket
use ratelimiter.Bucket.{Bucket, token, refill, take_up_to, next_token_in}
use ratelimiter.Bucket.Bounds.{refill-Refilled, take_up_to_lem, take_up_to-gained}
use ratelimiter.Bucket.Hints.{next_token_in-refill, next_token_in_suffices}
use ratelimiter.Config.{Config}
use ratelimiter.Coordinator.{TenantState, lease_tenant, new_tenant}

-- The books of a tenant with a given rate and capacity, opened at `since`, for leases of at most
-- `size` tokens: the tokens granted so far are covered, and the counters agree with one another.
pub record IsAccounted (rate cap since size : ℕ) (ts : TenantState) : Type 0 where
  pub same_rate : ts.bucket.rate ≡ rate
  pub same_cap : ts.bucket.cap ≡ cap
  pub within : ts.bucket.tokens ≤ cap
  pub opened : since ≤ ts.bucket.last
  pub covered :
      token * ts.tokens_granted + ts.bucket.tokens + rate * since ≤ cap + rate * ts.bucket.last
  pub starved : cap < token → ts.tokens_granted ≡ 0
  pub zeros : ts.zero_grants ≤ ts.lease_requests
  pub served : ts.lease_requests ≤ ts.zero_grants + ts.tokens_granted
  pub sized : ts.tokens_granted + size * ts.zero_grants ≤ size * ts.lease_requests

-- The bucket after a call, the tokens granted, and the counters.
pub lease_tenant_lem :
    (cfg : Config) (ts : TenantState) (now : ℕ)
    → let size = to_nat cfg.lease.size in
      let b = (take_up_to ts.bucket size now).0 in
      let ts' = (lease_tenant cfg ts now).0 in
      let granted = (lease_tenant cfg ts now).1.granted in
      (granted ≡ (take_up_to ts.bucket size now).1)
      × ((ts'.bucket ≡ b) ⊎ (ts'.bucket ≡ refill b now))
      × (ts'.lease_requests ≡ ts.lease_requests + 1)
      × (ts'.tokens_granted ≡ ts.tokens_granted + granted)
      × (ts'.zero_grants ≡ ts.zero_grants + (if granted == 0 then 1 else 0))
      × ((lease_tenant cfg ts now).1.ttl_ms ≡ to_nat cfg.lease.duration_ms)
unfolding lease_tenant
lease_tenant_lem cfg ts now =
    ground (arith, next_token_in-refill (take_up_to ts.bucket (to_nat cfg.lease.size) now).0 now)

-- After a take the refill of the hint changes no more: both read the same clock.
refill_again : (b : Bucket) (n now : ℕ) → refill (take_up_to b n now).0 now ≡ (take_up_to b n now).0
unfolding refill
refill_again b n now = ground (arith, take_up_to_lem b n now, refill-Refilled b now)

pub lease_tenant-bucket :
    (cfg : Config) (ts : TenantState) (now : ℕ)
    → (lease_tenant cfg ts now).0.bucket ≡ (take_up_to ts.bucket (to_nat cfg.lease.size) now).0
lease_tenant-bucket cfg ts now =
    ground (arith, lease_tenant_lem cfg ts now, refill_again ts.bucket (to_nat cfg.lease.size) now)

-- A lease call grants the smaller of the lease size and the whole tokens in the refilled bucket, and
-- leaves that much less in it.
pub lease_tenant_grants :
    (cfg : Config) (ts : TenantState) (now : ℕ)
    → let b = refill ts.bucket now in
      let (ts', resp) = lease_tenant cfg ts now in
      (resp.granted ≡ min (to_nat cfg.lease.size) (b.tokens / token))
      × (ts'.bucket.tokens + token * resp.granted ≡ b.tokens)
      × (ts'.tokens_granted ≡ ts.tokens_granted + resp.granted)
lease_tenant_grants cfg ts now =
    let size : ℕ = to_nat cfg.lease.size in
    ground (
      arith,
      lease_tenant_lem cfg ts now,
      lease_tenant-bucket cfg ts now,
      take_up_to_lem ts.bucket size now,
    )

-- Every lease call keeps the books.
pub lease_tenant-IsAccounted :
    {rate cap since : ℕ} (cfg : Config) (ts : TenantState) (now : ℕ)
    → IsAccounted rate cap since (to_nat cfg.lease.size) ts
    → IsAccounted rate cap since (to_nat cfg.lease.size) (lease_tenant cfg ts now).0
lease_tenant-IsAccounted {rate} {cap} {since} cfg ts now a =
    let size : ℕ = to_nat cfg.lease.size in
    ground (
      arith,
      lease_tenant_lem cfg ts now,
      lease_tenant-bucket cfg ts now,
      take_up_to_lem ts.bucket size now,
      take_up_to-gained ts.bucket size now,
      refill-Refilled ts.bucket now,
      ap (λ (n : ℕ). size * n) (lease_tenant_lem cfg ts now).2,
      ap (λ (n : ℕ). size * n) (lease_tenant_lem cfg ts now).4,
    )

pub new_tenant-IsAccounted :
    (now size : ℕ) (rate : ℤ)
    → IsAccounted (to_nat rate) (to_nat rate * 1_000_000_000) now size (new_tenant now rate)
unfolding new_tenant Bucket.new
new_tenant-IsAccounted now size rate = ground arith

-- A call that grants nothing asks the bucket when it will have a token.
lease_tenant-hint :
    (cfg : Config) (ts : TenantState) (now : ℕ)
    → (lease_tenant cfg ts now).1.granted ≡ 0
    → let taken = (take_up_to ts.bucket (to_nat cfg.lease.size) now).0 in
      ((lease_tenant cfg ts now).0.bucket ≡ (next_token_in taken now).0)
      × ((lease_tenant cfg ts now).1.retry_after_ms ≡ (next_token_in taken now).1 / 1_000_000 + 1)
unfolding lease_tenant
lease_tenant-hint cfg ts now none_left = ground arith

-- The pacing hint can be relied on: if a call is answered with no token, and the capacity is at least
-- one token, then a call that comes after `retry_after_ms` milliseconds, with no other call of the
-- tenant in between, is granted at least one.
pub retry_after_suffices :
    {rate cap since : ℕ} (cfg : Config) (ts : TenantState) (now later : ℕ)
    → IsAccounted rate cap since (to_nat cfg.lease.size) ts
    → 0 < rate
    → token ≤ cap
    → 0 < to_nat cfg.lease.size
    → ts.bucket.last ≤ now
    → (lease_tenant cfg ts now).1.granted ≡ 0
    → now + (lease_tenant cfg ts now).1.retry_after_ms * 1_000_000 ≤ later
    → 0 < (lease_tenant cfg (lease_tenant cfg ts now).0 later).1.granted
retry_after_suffices cfg ts now later a pos room asked fresh none_left late =
    rw (granted_later, hinted.0)
      (next_token_in_suffices taken size now later
        (ground (arith, take_up_to_lem ts.bucket size now, refill-Refilled ts.bucket now))
        (ground (arith, take_up_to_lem ts.bucket size now))
        (ground (arith, take_up_to_lem ts.bucket size now))
        (ground (arith, take_up_to_lem ts.bucket size now, refill-Refilled ts.bucket now)) asked
        (omega (arith, hinted.1)))
  where
    size : ℕ
    size = to_nat cfg.lease.size

    taken : Bucket
    taken = (take_up_to ts.bucket size now).0

    hinted :
        ((lease_tenant cfg ts now).0.bucket ≡ (next_token_in taken now).0)
        × ((lease_tenant cfg ts now).1.retry_after_ms ≡ (next_token_in taken now).1 / 1_000_000 + 1)
    hinted = lease_tenant-hint cfg ts now none_left

    granted_later :
        (lease_tenant cfg (lease_tenant cfg ts now).0 later).1.granted
        ≡ (take_up_to (lease_tenant cfg ts now).0.bucket size later).1
    granted_later = (lease_tenant_lem cfg (lease_tenant cfg ts now).0 later).0
