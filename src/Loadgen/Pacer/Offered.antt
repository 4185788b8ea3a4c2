-- ===== src/Loadgen/Pacer/Offered.antt =====
-- What one load offers, and where its requests are.
use ratelimiter.Base.{
  ℕ, zero, suc, ◌+◌, ◌-◌, ◌*◌, ◌/◌, ◌≤◌, ◌<◌, ◌≡◌, refl, Bool-cases, inl, inr, arith, ltb, leb,
  mul-sub, div_bounds,
}
use ratelimiter.Bucket.{token}
use ratelimiter.Loadgen.Driver.{TenantLoad, Response, lost, answered, error_count}
use ratelimiter.Loadgen.Driver.Counted.{is_admitted, is_rejected, is_error, record_response_lem}
use ratelimiter.Loadgen.Pacer.{
  load_cost, IsSum, Pace, dispatch, dispatches, tick, send, receive, abandon, PaceStep, ticks,
  cancels, sends, receives, abandons,
}

-- What has been offered: dispatched or dropped.
abbrev pub offered : Pace → ℕ
offered s = s.result.sent + s.starting + s.result.client_drops

-- The requests that are done, in the four ways in which one ends.
abbrev pub ended : Pace → ℕ
ended s = s.result.admitted + s.result.rejected + error_count s.result + s.silent

pub record IsSettled (l : TenantLoad) (s : Pace) : Type 0 where
  pub slots : s.busy ≡ s.starting + s.flying
  pub room : s.busy ≤ l.concurrency
  pub sent : s.result.sent ≡ s.flying + ended s
  pub tokens : s.result.admitted_tokens ≡ load_cost l * s.result.admitted

dispatch_lem :
    (l : TenantLoad) (s : Pace)
    → (offered (dispatch l s) ≡ offered s + 1)
      × ((dispatch l s).quota ≡ s.quota)
      × ((dispatch l s).last ≡ s.last)
      × (IsSettled l s → IsSettled l (dispatch l s))
unfolding dispatch error_count
dispatch_lem l s = elim (Bool-cases (ltb s.busy l.concurrency)) [
  | inl e ↦ rw e (
    omega arith,
    refl,
    refl,
    λ k. record {
      slots = omega (arith, k.slots);
      room = ground (arith, e);
      sent = k.sent;
      tokens = k.tokens;
    },
  )
  | inr e ↦ rw e (
    omega arith,
    refl,
    refl,
    λ k. record { slots = k.slots; room = k.room; sent = k.sent; tokens = k.tokens },
  )
]

dispatches_lem :
    (l : TenantLoad) (n : ℕ) (s : Pace)
    → (offered (dispatches l n s) ≡ offered s + n)
      × ((dispatches l n s).quota ≡ s.quota)
      × ((dispatches l n s).last ≡ s.last)
      × (IsSettled l s → IsSettled l (dispatches l n s))
unfolding dispatches
dispatches_lem l zero s = (omega arith, refl, refl, λ k. k)
dispatches_lem l (suc n) s =
    let ih = dispatches_lem l n (dispatch l s) in
    let one = dispatch_lem l s in
    (
      omega (arith, ih.0, one.0),
      omega (arith, ih.1, one.1),
      omega (arith, ih.2, one.2),
      λ k. ih.3 (one.3 k),
    )

-- The accumulator against the time: but for a drift, nothing is lost and nothing is offered early.
pub record IsOnPace (l : TenantLoad) (from drift : ℕ) (s : Pace) : Type 0 where
  pub began : from ≤ s.last
  pub early : token * offered s + s.quota + l.rps * from ≤ l.rps * s.last + drift
  pub lost : l.rps * s.last ≤ token * offered s + s.quota + l.rps * from + drift
  pub partial : s.quota < token

tick-IsOnPace :
    {l : TenantLoad} {from drift : ℕ} {s : Pace} (err duration now sum : ℕ)
    → s.last ≤ now
    → IsSum err (s.quota + l.rps * (now - s.last)) sum
    → IsOnPace l from drift s
    → IsOnPace l from (drift + err) (tick l duration now sum s)
unfolding tick
tick-IsOnPace {l} {from} {drift} {s} err duration now sum h rounded k =
    let all =
      dispatches_lem l (sum / token)
        (record s { last = now; quota = sum - token * (sum / token) }) in
    let bounds = div_bounds sum token (omega arith) in
    let income = mul-sub l.rps s.last now h in
    elim (Bool-cases (leb duration (now - s.start))) [
      | inl e ↦ rw e (record {
        began = k.began;
        early = omega (arith, k.early);
        lost = omega (arith, k.lost);
        partial = k.partial;
      })
      | inr e ↦ rw e (record {
        began = omega (arith, h, k.began, all.2);
        early = rw all.2 (omega (arith, all.0, all.1, bounds, income, rounded, k.early));
        lost = rw all.2 (omega (arith, all.0, all.1, bounds, income, rounded, k.lost));
        partial = omega (arith, all.1, bounds);
      })
    ]

tick-IsSettled :
    {l : TenantLoad} {s : Pace} (duration now sum : ℕ)
    → IsSettled l s
    → IsSettled l (tick l duration now sum s)
unfolding tick error_count
tick-IsSettled {l} {s} duration now sum k =
    let n = sum / token in
    let quota = sum - token * n in
    elim (Bool-cases (leb duration (now - s.start))) [
      | inl e ↦ rw e (record { slots = k.slots; room = k.room; sent = k.sent; tokens = k.tokens })
      | inr e ↦ rw e (
          (dispatches_lem l n (record s { last = now; quota = quota })).3
            (record { slots = k.slots; room = k.room; sent = k.sent; tokens = k.tokens }))
    ]

-- Each response is one of the three kinds.
kinds : (r : Response) → is_admitted r + is_rejected r + is_error r ≡ 1
kinds lost = refl
kinds (answered status) = ground arith

receive-IsSettled :
    {l : TenantLoad} {s : Pace} (sec : ℕ) (response : Response) (latency : ℕ)
    → 0 < s.flying
    → IsSettled l s
    → IsSettled l (receive l sec response latency s)
unfolding receive
receive-IsSettled {l} {s} sec response latency h k =
    let c = record_response_lem s.result sec response latency (load_cost l) in
    record {
      slots = omega (arith, k.slots, h);
      room = omega (arith, k.room);
      sent = omega (arith, k.sent, h, c.sends, c.admits, c.rejects, c.fails, kinds response);
      tokens = rw (c.pays, c.admits) (grind (arith, k.tokens));
    }

pub PaceStep-IsSettled :
    {l : TenantLoad} {duration err : ℕ} {s s' : Pace}
    → PaceStep l duration err s s'
    → IsSettled l s
    → IsSettled l s'
unfolding send abandon error_count
PaceStep-IsSettled (ticks now sum on h r) k = tick-IsSettled _ now sum k
PaceStep-IsSettled (cancels on) k = record {
  slots = k.slots;
  room = k.room;
  sent = k.sent;
  tokens = k.tokens;
}
PaceStep-IsSettled (sends h) k = record {
  slots = omega (arith, k.slots, h);
  room = k.room;
  sent = omega (arith, k.sent);
  tokens = k.tokens;
}
PaceStep-IsSettled (receives sec response latency h) k = receive-IsSettled sec response latency h k
PaceStep-IsSettled (abandons h) k = record {
  slots = omega (arith, k.slots, h);
  room = omega (arith, k.room);
  sent = omega (arith, k.sent, h);
  tokens = k.tokens;
}

-- What a step adds to the drift.
unfoldable pub drift_of :
    {l : TenantLoad} {duration err : ℕ} {s s' : Pace} → PaceStep l duration err s s' → ℕ
drift_of {err = err} (ticks now sum on h r) = err
drift_of (cancels on) = 0
drift_of (sends h) = 0
drift_of (receives sec response latency h) = 0
drift_of (abandons h) = 0

pub PaceStep-IsOnPace :
    {l : TenantLoad} {duration err from drift : ℕ} {s s' : Pace}
    (step : PaceStep l duration err s s')
    → IsOnPace l from drift s
    → IsOnPace l from (drift + drift_of step) s'
unfolding send abandon receive drift_of
PaceStep-IsOnPace (ticks now sum on h r) k = tick-IsOnPace _ _ now sum h r k
PaceStep-IsOnPace (cancels on) k = record {
  began = k.began;
  early = omega (arith, k.early);
  lost = omega (arith, k.lost);
  partial = k.partial;
}
PaceStep-IsOnPace (sends h) k = record {
  began = k.began;
  early = omega (arith, k.early, h);
  lost = omega (arith, k.lost, h);
  partial = k.partial;
}
PaceStep-IsOnPace {l} {s = s} (receives sec response latency h) k =
    let c = record_response_lem s.result sec response latency (load_cost l) in
    record {
      began = k.began;
      early = omega (arith, k.early, c.sends, c.drops);
      lost = omega (arith, k.lost, c.sends, c.drops);
      partial = k.partial;
    }
PaceStep-IsOnPace (abandons h) k = record {
  began = k.began;
  early = omega (arith, k.early);
  lost = omega (arith, k.lost);
  partial = k.partial;
}
