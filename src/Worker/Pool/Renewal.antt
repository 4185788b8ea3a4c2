-- ===== src/Worker/Pool/Renewal.antt =====
-- When a renewal starts, how it ends, and what the pool may hold.
use ratelimiter.Base.{
  ℕ, ◌+◌, ◌-◌, ◌/◌, ◌≤◌, ◌<◌, max, ◌≡◌, ◌≢◌, ◌↔◌, ◌⊎◌, inl, inr, Bool, true, false, none, some,
  arith,
}
use ratelimiter.Worker.Pool.{
  Pool, Reply, grant, no_such_tenant, failed, should_renew, begin, resume, finish, next_backoff,
  backoff_min, backoff_max,
}

-- A renewal is due exactly when none is in flight, the time of the next try has come, and the request
-- could not be paid for, or the pool never had a grant, or it is below the larger of 1 and a fifth of
-- the last grant.
pub should_renew_iff :
    (p : Pool) (now : ℕ) (insufficient : Bool)
    → (should_renew p now insufficient ≡ true) ↔ (
        (p.renewing ≡ false)
        × (p.next_try ≤ now)
        × ((insufficient ≡ true) ⊎ (p.last_grant ≡ 0) ⊎ (p.tokens < max 1 (p.last_grant / 5))))
unfolding should_renew
should_renew_iff p now insufficient = (λ h. ground arith, λ h. ground arith)

-- One renewal at a time: the first critical section of `Check` starts one only if none is in flight,
-- and then, on the channel given, one is; otherwise flag and channel stay as they are.
pub begin_singleflight :
    (p : Pool) (now cost chan : ℕ)
    → let (p', need, _) = begin p now cost chan in
      ((need ≡ true) × (p.renewing ≡ false) × (p'.renewing ≡ true) × (p'.renew_done ≡ some chan))
      ⊎ ((need ≡ false) × (p'.renewing ≡ p.renewing) × (p'.renew_done ≡ p.renew_done))
unfolding begin
begin_singleflight p now cost chan = ground arith

-- A request that cannot be paid for, because the pool holds too few tokens or because those that it
-- holds are expired, always has a renewal under way, even above the watermark, unless a zero grant or
-- a failure holds it back or the tenant is marked unknown.
pub begin_not_starved :
    (p : Pool) (now cost chan : ℕ)
    → p.unknown_until ≤ now
    → p.next_try ≤ now
    → 0 < cost
    → (p.tokens < cost) ⊎ (p.expiry ≤ now)
    → (begin p now cost chan).0.renewing ≡ true
unfolding begin
begin_not_starved p now cost chan h k c (inl few) = ground arith
begin_not_starved p now cost chan h k c (inr late) = ground arith

-- The most that a pool holds when a renewal ends, if no request costs more than `cost` and no lease
-- more than `lease`.
abbrev pub slack : ℕ → ℕ → ℕ
slack cost lease = max (cost - 1) (max 1 (lease / 5) - 1)

-- The invariant of a pool.
pub record IsValid (cost lease : ℕ) (p : Pool) : Type 0 where
  pub idle : p.renewing ≡ false → p.renew_done ≡ none
  pub marked : p.renewing ≡ true → p.renew_done ≢ none
  pub leased : p.last_grant ≤ lease
  pub fresh : p.last_grant ≡ 0 → p.tokens ≡ 0
  pub low : p.renewing ≡ true → p.tokens ≤ slack cost lease
  pub bounded : p.tokens ≤ slack cost lease + lease
  pub paced : (p.backoff ≡ 0) ⊎ ((backoff_min ≤ p.backoff) × (p.backoff ≤ backoff_max))

-- The first critical section of `Check` keeps the invariant, for requests of at most `cost`.
pub begin-IsValid :
    {cost lease : ℕ} (p : Pool) (now c chan : ℕ)
    → c ≤ cost
    → 0 < c
    → IsValid cost lease p
    → IsValid cost lease (begin p now c chan).0
unfolding begin
begin-IsValid p now c chan h k v = ground arith

-- The second critical section of `Check` keeps the invariant.
pub resume-IsValid :
    {cost lease : ℕ} (p : Pool) (now c : ℕ)
    → IsValid cost lease p
    → IsValid cost lease (resume p now c).0
unfolding resume
resume-IsValid p now c v = ground arith

-- The grants of a lease size.
abbrev pub IsLease : ℕ → Reply → Type 0
IsLease lease (grant g) = g.tokens ≤ lease
IsLease lease no_such_tenant = Unit
IsLease lease failed = Unit

-- The end of a renewal in flight keeps the invariant, whatever the lease call returned.
pub finish-IsValid :
    {cost lease : ℕ} (p : Pool) (now : ℕ) (reply : Reply) (draw : ℕ)
    → p.renewing ≡ true
    → IsLease lease reply
    → IsValid cost lease p
    → IsValid cost lease (finish p now reply draw).0
unfolding finish next_backoff
finish-IsValid p now (grant g) draw h k v = ground arith
finish-IsValid p now no_such_tenant draw h k v = ground arith
finish-IsValid p now failed draw h k v = ground arith
