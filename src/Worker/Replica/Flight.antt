-- ===== src/Worker/Replica/Flight.antt =====
-- Renewals in flight and requests that wait: one call at a time, and no request waits in vain.
use ratelimiter.Base.{
  ℕ, ◌+◌, ◌≤◌, ◌<◌, ◌≡◌, refl, ◌⊎◌, inl, inr, Bool, true, false, Option, some, List, [], ◌∷◌, arith,
  All, length, sum_by, if◌then◌else◌, Bool-cases,
}
use ratelimiter.Worker.Pool.{
  Pool, Reply, grant, no_such_tenant, failed, Outcome, decided, waits, begin,
}
use ratelimiter.Worker.Pool.Admission.{begin_waits}
use ratelimiter.Worker.Pool.Renewal
use ratelimiter.Worker.Pool.Renewal.{
  IsLease, begin_singleflight, begin-IsValid, resume-IsValid, finish-IsValid,
}
use ratelimiter.Worker.Pool.History.{granted_by}
use ratelimiter.Worker.Replica.{Replica, Call, asked, answered, Waiter, new_replica, settle, check}

abbrev pub Has : ℕ → List ℕ → Type 0
Has c [] = ⊥
Has c (d ∷ ds) = (c ≡ d) ⊎ Has c ds

abbrev pub in_flight : Bool → ℕ
in_flight true = 1
in_flight false = 0

-- A lease call that was answered holds at most a lease.
abbrev pub IsCall : ℕ → Call → Type 0
IsCall lease asked = Unit
IsCall lease (answered reply) = IsLease lease reply

-- The channel of a request that waits is closed, or the renewal in flight will close it.
abbrev pub IsServed : List ℕ → Option ℕ → Waiter → Type 0
IsServed closed channel w = Has w.chan closed ⊎ (channel ≡ some w.chan)

pub record IsValid (cost lease : ℕ) (r : Replica) : Type 0 where
  pub pool : Renewal.IsValid cost lease r.pool
  pub single : length r.calls ≡ in_flight r.pool.renewing
  pub leases : All (IsCall lease) r.calls
  pub served : All (IsServed r.closed r.pool.renew_done) r.waiting

-- Tokens that the coordinator has granted and no request has taken.
abbrev pub call_tokens : Call → ℕ
call_tokens asked = 0
call_tokens (answered reply) = granted_by reply

abbrev pub outstanding : Replica → ℕ
outstanding r = r.pool.tokens + sum_by call_tokens r.calls

pub new_replica-IsValid : (cost lease : ℕ) → IsValid cost lease new_replica
new_replica-IsValid cost lease = record {
  pool = record {
    idle = λ e. refl;
    marked = λ e. cc;
    leased = omega arith;
    fresh = λ e. refl;
    low = λ e. cc;
    bounded = omega arith;
    paced = inl refl;
  };
  single = refl;
  leases = tt;
  served = tt;
}

IsLease-granted_by : (lease : ℕ) (reply : Reply) → IsLease lease reply → granted_by reply ≤ lease
IsLease-granted_by lease (grant g) h = h
IsLease-granted_by lease no_such_tenant h = omega arith
IsLease-granted_by lease failed h = omega arith

-- A worker never holds more tokens of a tenant, in its pool and in an answer on its way, than a lease
-- and what a pool may hold when a renewal starts.
pub outstanding-le :
    {cost lease : ℕ} (r : Replica)
    → IsValid cost lease r
    → outstanding r ≤ Renewal.slack cost lease + lease
outstanding-le {cost} {lease} r v = bound r.calls v.single v.leases
  where
    bound :
        (cs : List Call)
        → length cs ≡ in_flight r.pool.renewing
        → All (IsCall lease) cs
        → r.pool.tokens + sum_by call_tokens cs ≤ Renewal.slack cost lease + lease
    bound [] e h = omega (arith, v.pool.bounded)
    bound (asked ∷ []) e h = omega (arith, v.pool.bounded)
    bound (answered reply ∷ []) e h =
        ground (arith, IsLease-granted_by lease reply h.0, v.pool.low, v.pool.bounded)
    bound (c ∷ d ∷ cs) e h = ground arith

-- New channels serve those who waited before, if they serve all that the old ones did.
pub IsServed-more :
    (closed : List ℕ) (old : Option ℕ) (closed' : List ℕ) (new : Option ℕ) (ws : List Waiter)
    → ((c : ℕ) → Has c closed ⊎ (old ≡ some c) → Has c closed' ⊎ (new ≡ some c))
    → All (IsServed closed old) ws
    → All (IsServed closed' new) ws
IsServed-more closed old closed' new [] f h = tt
IsServed-more closed old closed' new (w ∷ ws) f h =
    (f w.chan h.0, IsServed-more closed old closed' new ws f h.1)

abbrev joins : Outcome → ℕ → List Waiter → List Waiter
joins (decided d) cost ws = ws
joins (waits chan) cost ws = record { chan = chan; cost = cost } ∷ ws

settle_keeps :
    (r : Replica) (o : Outcome) (cost : ℕ)
    → ((settle r o cost).pool ≡ r.pool)
      × ((settle r o cost).calls ≡ r.calls)
      × ((settle r o cost).closed ≡ r.closed)
      × ((settle r o cost).waiting ≡ joins o cost r.waiting)
unfolding settle
settle_keeps r (decided d) cost = (refl, refl, refl, refl)
settle_keeps r (waits chan) cost = (refl, refl, refl, refl)

-- `Check` on a worker, field by field.
pub check_lem :
    (r : Replica) (now c : ℕ)
    → let (p, need, o) = begin r.pool now c r.next_chan in
      ((check r now c).0.pool ≡ p)
      × ((check r now c).0.calls ≡ (if need then asked ∷ r.calls else r.calls))
      × ((check r now c).0.closed ≡ r.closed)
      × ((check r now c).0.waiting ≡ joins o c r.waiting)
      × ((check r now c).1 ≡ o)
unfolding check
check_lem r now c = elim (Bool-cases (begin r.pool now c r.next_chan).1) [
  | inl e ↦ rw e (with_settle _)
  | inr e ↦ rw e (with_settle _)
]
  where
    o : Outcome
    o = (begin r.pool now c r.next_chan).2

    with_settle :
        (q : Replica)
        → ((settle q o c).pool ≡ q.pool)
          × ((settle q o c).calls ≡ q.calls)
          × ((settle q o c).closed ≡ q.closed)
          × ((settle q o c).waiting ≡ joins o c q.waiting)
          × (o ≡ o)
    with_settle q = let k = settle_keeps q o c in (k.0, k.1, k.2, k.3, refl)

module _ {cost lease : ℕ} where
  -- A request keeps the invariant: it starts a renewal only if none is in flight, and if it waits, a
  -- renewal in flight will wake it.
  pub check-IsValid :
      (r : Replica) (now c : ℕ)
      → c ≤ cost
      → 0 < c
      → IsValid cost lease r
      → IsValid cost lease (check r now c).0
  check-IsValid r now c h k v =
      let facts = check_lem r now c in
      record {
        pool = rw facts.0 (begin-IsValid r.pool now c r.next_chan h k v.pool);
        single = rw (facts.0, facts.1) one_call;
        leases = rw facts.1 calls_of_leases;
        served = rw (facts.0, facts.2, facts.3) (joined (begin r.pool now c r.next_chan).2 refl);
      }
    where
      p : Pool
      p = (begin r.pool now c r.next_chan).0

      need : Bool
      need = (begin r.pool now c r.next_chan).1

      one_call : length (if need then asked ∷ r.calls else r.calls) ≡ in_flight p.renewing
      one_call = ground (arith, begin_singleflight r.pool now c r.next_chan, v.single)

      calls_of_leases : All (IsCall lease) (if need then asked ∷ r.calls else r.calls)
      calls_of_leases = ground (arith, v.leases)

      still :
          (d : ℕ)
          → Has d r.closed ⊎ (r.pool.renew_done ≡ some d)
          → Has d r.closed ⊎ (p.renew_done ≡ some d)
      still d (inl x) = inl x
      still d (inr x) =
          inr (ground (arith, begin_singleflight r.pool now c r.next_chan, v.pool.idle))

      old_waiters : All (IsServed r.closed p.renew_done) r.waiting
      old_waiters =
          IsServed-more r.closed r.pool.renew_done r.closed p.renew_done r.waiting still v.served

      joined :
          (o : Outcome)
          → (begin r.pool now c r.next_chan).2 ≡ o
          → All (IsServed r.closed p.renew_done) (joins o c r.waiting)
      joined (decided d) e = old_waiters
      joined (waits chan) e = (inr (begin_waits r.pool now c r.next_chan chan k e).0, old_waiters)
