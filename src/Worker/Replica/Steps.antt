-- ===== src/Worker/Replica/Steps.antt =====
-- The other steps of a worker keep its invariant: a request wakes or gives up, a renewal ends.
use ratelimiter.Base.{
  ℕ, ◌≤◌, ◌<◌, ◌≡◌, refl, ◌⊎◌, inl, inr, Bool, true, false, Option, none, some, List, [], ◌∷◌, ◌++◌,
  arith, All, length, length-append, All-remove, ap, sym, ◌∙◌,
}
use ratelimiter.Worker.Pool.{Pool, Reply, resume, finish}
use ratelimiter.Worker.Pool.Renewal.{resume-IsValid, finish-IsValid}
use ratelimiter.Worker.Pool.Grants.{finish_closes}
use ratelimiter.Worker.Replica.{Replica, Call, answered, Waiter, wake, give_up, close, renewed}
use ratelimiter.Worker.Replica.Flight.{Has, in_flight, IsCall, IsServed, IsValid, IsServed-more}

resume_keeps :
    (p : Pool) (now c : ℕ)
    → ((resume p now c).0.renewing ≡ p.renewing) × ((resume p now c).0.renew_done ≡ p.renew_done)
unfolding resume
resume_keeps p now c = ground arith

Has-close :
    (c : ℕ) (closed : List ℕ) (channel : Option ℕ)
    → Has c closed ⊎ (channel ≡ some c)
    → Has c (close closed channel)
unfolding close
Has-close c closed none (inl h) = h
Has-close c closed none (inr e) = cc
Has-close c closed (some d) (inl h) = inr h
Has-close c closed (some d) (inr e) = inl (ground arith)

in_flight-le : (b : Bool) → in_flight b ≤ 1
in_flight-le true = omega arith
in_flight-le false = omega arith

in_flight-true : (b : Bool) → 0 < in_flight b → b ≡ true
in_flight-true true h = refl
in_flight-true false h = absurd (omega arith)

-- If at most one call is in flight, a call that is there is the only one.
alone :
    (lease : ℕ) (b : Bool) (before after : List Call) (c : Call)
    → length (before ++ c ∷ after) ≡ in_flight b
    → All (IsCall lease) (before ++ c ∷ after)
    → (b ≡ true) × (before ≡ []) × (after ≡ []) × IsCall lease c
alone lease b [] [] c h k = (in_flight-true b (omega arith), refl, refl, k.0)
alone lease b [] (x ∷ after) c h k = absurd (omega (arith, in_flight-le b))
alone lease b (x ∷ before) after c h k =
    absurd (omega (arith, in_flight-le b, length-append before (c ∷ after)))

module _ {cost lease : ℕ} where
  pub wake-IsValid :
      (r : Replica) (now : ℕ) (before after : List Waiter) (w : Waiter)
      → r.waiting ≡ before ++ w ∷ after
      → IsValid cost lease r
      → IsValid cost lease (wake r now w.cost (before ++ after)).0
  unfolding wake
  wake-IsValid r now before after w e v =
      let kept = resume_keeps r.pool now w.cost in
      record {
        pool = resume-IsValid r.pool now w.cost v.pool;
        single = rw kept.0 v.single;
        leases = v.leases;
        served =
            rw kept.1 (All-remove (IsServed r.closed r.pool.renew_done) before after w e v.served);
      }

  pub give_up-IsValid :
      (r : Replica) (before after : List Waiter) (w : Waiter)
      → r.waiting ≡ before ++ w ∷ after
      → IsValid cost lease r
      → IsValid cost lease (give_up r w.cost (before ++ after))
  unfolding give_up
  give_up-IsValid r before after w e v = record {
    pool = v.pool;
    single = v.single;
    leases = v.leases;
    served = All-remove (IsServed r.closed r.pool.renew_done) before after w e v.served;
  }

  -- The one call in flight, if there is one at all, is the only one.
  only_call :
      (r : Replica) (before after : List Call) (c : Call)
      → r.calls ≡ before ++ c ∷ after
      → IsValid cost lease r
      → (r.pool.renewing ≡ true) × (before ≡ []) × (after ≡ []) × IsCall lease c
  only_call r before after c e v =
      alone lease r.pool.renewing before after c (ap length (sym e) ∙ v.single) (rw e at v.leases)

  -- A call that changes its state stays within a lease.
  pub call-IsValid :
      (r : Replica) (before after : List Call) (c d : Call)
      → r.calls ≡ before ++ c ∷ after
      → IsCall lease d
      → IsValid cost lease r
      → IsValid cost lease (record r { calls = before ++ d ∷ after })
  call-IsValid r before after c d e k v =
      let (on, no_before, no_after, _) = only_call r before after c e v in
      record {
        pool = v.pool;
        single = rw (no_before, no_after, on) refl;
        leases = rw (no_before, no_after) (k, tt);
        served = v.served;
      }

  -- The end of a renewal keeps the invariant: its channel is closed, so that those who wait for it
  -- go on.
  pub renewed-IsValid :
      (r : Replica) (now : ℕ) (reply : Reply) (draw : ℕ) (before after : List Call)
      → r.calls ≡ before ++ answered reply ∷ after
      → IsValid cost lease r
      → IsValid cost lease (renewed r now reply draw (before ++ after))
  unfolding renewed
  renewed-IsValid r now reply draw before after e v =
      let (on, no_before, no_after, fits) = only_call r before after (answered reply) e v in
      record {
        pool = finish-IsValid r.pool now reply draw on fits v.pool;
        single = rw (no_before, no_after, closes.0) refl;
        leases = rw (no_before, no_after) tt;
        served =
            IsServed-more r.closed r.pool.renew_done
              (close r.closed (finish r.pool now reply draw).1)
              (finish r.pool now reply draw).0.renew_done r.waiting all_closed v.served;
      }
    where
      closes :
          ((finish r.pool now reply draw).0.renewing ≡ false)
          × ((finish r.pool now reply draw).1 ≡ r.pool.renew_done)
      closes = (let f = finish_closes r.pool now reply draw in (f.0, f.2))

      all_closed :
          (c : ℕ)
          → Has c r.closed ⊎ (r.pool.renew_done ≡ some c)
          → Has c (close r.closed (finish r.pool now reply draw).1)
            ⊎ ((finish r.pool now reply draw).0.renew_done ≡ some c)
      all_closed c h = inl (rw closes.1 (Has-close c r.closed r.pool.renew_done h))
