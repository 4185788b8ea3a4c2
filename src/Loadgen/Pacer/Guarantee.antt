-- ===== src/Loadgen/Pacer/Guarantee.antt =====
-- What one load of the driver promises, in every state that its loop and goroutines can reach.
use ratelimiter.Base.{
  ℕ, ◌+◌, ◌-◌, ◌*◌, ◌≤◌, ◌<◌, ◌≡◌, refl, Bool-cases, inl, inr, some, ltb, arith, mul-sub,
}
use ratelimiter.Base.Int.{pos}
use ratelimiter.Bucket.{token}
use ratelimiter.Worker.Server.{parse_cost}
use ratelimiter.Worker.Server.Cost.{parse_cost-decimal}
use ratelimiter.Loadgen.Driver.{TenantLoad, error_count}
use ratelimiter.Loadgen.Pacer.{load_cost, url_cost, Pace, begin_pace, Paced, begun, next}
use ratelimiter.Loadgen.Pacer.Offered.{
  offered, IsSettled, IsOnPace, PaceStep-IsSettled, PaceStep-IsOnPace, drift_of,
}

-- The rounding of the ticks of a run, together.
unfoldable pub drift_of_run :
    {l : TenantLoad} {duration err : ℕ} {first s : Pace} → Paced l duration err first s → ℕ
unfolding drift_of
drift_of_run begun = 0
drift_of_run (next run step) = drift_of_run run + drift_of step

Paced-IsOnPace :
    {l : TenantLoad} {duration err : ℕ} (start from : ℕ) {s : Pace}
    (run : Paced l duration err (begin_pace start from) s)
    → IsOnPace l from (drift_of_run run) s
unfolding begin_pace drift_of_run
Paced-IsOnPace start from begun = record {
  began = omega arith;
  early = omega arith;
  lost = omega arith;
  partial = omega arith;
}
Paced-IsOnPace start from (next run step) = PaceStep-IsOnPace step (Paced-IsOnPace start from run)

Paced-IsSettled :
    {l : TenantLoad} {duration err : ℕ} (start from : ℕ) {s : Pace}
    → Paced l duration err (begin_pace start from) s
    → IsSettled l s
unfolding begin_pace error_count
Paced-IsSettled start from begun = record {
  slots = refl;
  room = omega arith;
  sent = refl;
  tokens = omega arith;
}
Paced-IsSettled start from (next run step) =
    PaceStep-IsSettled step (Paced-IsSettled start from run)

-- In every reachable state, the requests sent, those about to be, and those dropped are together the
-- rate times the time from the start of the loop to its last tick, however irregular the ticks are:
-- never more than that and the rounding of the ticks so far, and less by no more than one request and
-- that rounding, which is the error of one sum for each tick.
pub offered_on_pace :
    {l : TenantLoad} {duration err : ℕ} (start from : ℕ) {s : Pace}
    (run : Paced l duration err (begin_pace start from) s)
    → (token * offered s ≤ l.rps * (s.last - from) + drift_of_run run)
      × (l.rps * (s.last - from) < token * (offered s + 1) + drift_of_run run)
offered_on_pace {l} start from {s} run =
    let k = Paced-IsOnPace start from run in
    let time = mul-sub l.rps from s.last k.began in
    (omega (arith, k.early, time), omega (arith, k.lost, k.partial, time))

-- In every reachable state, at most Concurrency requests hold a slot, every request that was sent
-- is in flight, admitted, rejected, an error or was cut off by the shutdown, and the admitted tokens
-- are the load's cost times the admitted requests.
pub requests_accounted :
    {l : TenantLoad} {duration err : ℕ} (start from : ℕ) {s : Pace}
    → Paced l duration err (begin_pace start from) s
    → (s.starting + s.flying ≤ l.concurrency)
      × (s.result.sent
          ≡ s.flying + (s.result.admitted + s.result.rejected + error_count s.result + s.silent))
      × (s.result.admitted_tokens ≡ load_cost l * s.result.admitted)
requests_accounted start from run =
    let k = Paced-IsSettled start from run in (omega (arith, k.slots, k.room), k.sent, k.tokens)

-- The worker reads back the cost that the driver sends, for any load whose cost is at most 1000: a
-- missing parameter is a cost of 1, and so is a load's cost of 0.
pub url_cost-read :
    (l : TenantLoad) → l.cost ≤ 1000 → parse_cost (url_cost l) ≡ some (pos (load_cost l))
unfolding url_cost load_cost parse_cost
url_cost-read l h = elim (Bool-cases (ltb l.cost 1)) [
  | inl e ↦ rw e refl
  | inr e ↦ rw e (elim (Bool-cases (ltb 1 l.cost)) [
    | inl e' ↦ rw e' (parse_cost-decimal l.cost (ground (arith, e)) h)
    | inr e' ↦ let one : l.cost ≡ 1 = ground (arith, e, e') in rw (e', one) refl
  ])
]
