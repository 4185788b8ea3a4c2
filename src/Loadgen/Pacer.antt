-- ===== src/Loadgen/Pacer.antt =====
-- internal/loadgen/driver.go, `runTenant` and `one`: the paced dispatch of one load.
-- The loop and the goroutines that it starts are steps of a relation: a tick of the ticker, a
-- goroutine that counts its request as sent, and one whose request ends. A goroutine holds its slot
-- of the semaphore from the dispatch to its end. Times are nanoseconds and the ticker's readings do
-- not step back; a request is 10^12 units, so that thousandths of a request per second times
-- nanoseconds are units and `int(quota)` is a division; a quota is rounded down to units, and what
-- float64 makes of a sum is any number of units within `err` of it. The result is this load's alone.
pub mod Offered
pub mod Guarantee
use ratelimiter.Base.{
  ℕ, zero, suc, ◌+◌, ◌-◌, ◌*◌, ◌/◌, ◌%◌, ◌≤◌, ◌<◌, ◌≡◌, List, [], Bool, true, false, ltb, leb,
  if◌then◌else◌,
}
use ratelimiter.Base.Decimal.{decimal}
use ratelimiter.Bucket.{token}
use ratelimiter.Loadgen.Driver.{TenantLoad, TenantResult, no_result, Response, record_response}

-- `cost := l.Cost`, at least 1.
unfoldable pub load_cost : TenantLoad → ℕ
load_cost l = if ltb l.cost 1 then 1 else l.cost

-- What the URL has behind `?cost=`: nothing at a cost of 1.
unfoldable pub url_cost : TenantLoad → List ℕ
unfolding load_cost
url_cost l = if ltb 1 (load_cost l) then decimal (load_cost l) else []

-- The loop's variables; the goroutines by how far they are: `starting` before `Sent++`, `flying`
-- until the request ends, `silent` that ended at the shutdown, and the taken slots of `sem`.
pub record Pace : Type 0 where
  pub start : ℕ
  pub last : ℕ
  pub quota : ℕ
  pub returned : Bool
  pub busy : ℕ
  pub starting : ℕ
  pub flying : ℕ
  pub silent : ℕ
  pub result : TenantResult

unfoldable pub begin_pace : ℕ → ℕ → Pace
begin_pace start now = record {
  start = start;
  last = now;
  quota = 0;
  returned = false;
  busy = 0;
  starting = 0;
  flying = 0;
  silent = 0;
  result = no_result;
}

-- The inner `select`: a slot and a goroutine, or a drop if all slots are busy.
unfoldable pub dispatch : TenantLoad → Pace → Pace
dispatch l s =
    if ltb s.busy l.concurrency
    then record s { busy = s.busy + 1; starting = s.starting + 1 }
    else record s { result = record s.result { client_drops = s.result.client_drops + 1 } }

unfoldable pub dispatches : TenantLoad → ℕ → Pace → Pace
dispatches l zero s = s
dispatches l (suc n) s = dispatches l n (dispatch l s)

-- `case now := <-tick.C`, where `quota += now.Sub(last).Seconds() * l.RPS` gives `sum`.
unfoldable pub tick : TenantLoad → (duration now sum : ℕ) → Pace → Pace
unfolding dispatches
tick l duration now sum s =
    let n = sum / token in
    if leb duration (now - s.start)
    then record s { returned = true }
    else dispatches l n (record s { last = now; quota = sum - token * n })

-- The first lines of `one`.
unfoldable pub send : Pace → Pace
send s = record s {
  starting = s.starting - 1;
  flying = s.flying + 1;
  result = record s.result { sent = s.result.sent + 1 };
}

-- The rest of `one`, with a response or an error that is recorded, and the slot given back.
unfoldable pub receive : TenantLoad → ℕ → Response → ℕ → Pace → Pace
unfolding load_cost
receive l sec response latency s = record s {
  flying = s.flying - 1;
  busy = s.busy - 1;
  result = record_response s.result sec response latency (load_cost l);
}

-- The rest of `one` after an error when the context is done: nothing is recorded.
unfoldable pub abandon : Pace → Pace
abandon s = record s { flying = s.flying - 1; busy = s.busy - 1; silent = s.silent + 1 }

-- A sum that is rounded, by at most `err` units.
abbrev pub IsSum : (err exact sum : ℕ) → Type 0
IsSum err exact sum = (sum ≤ exact + err) × (exact ≤ sum + err)

pub data PaceStep (l : TenantLoad) (duration err : ℕ) (s : Pace) : Pace → Type 0 where
  ticks :
      (now sum : ℕ)
      → s.returned ≡ false
      → s.last ≤ now
      → IsSum err (s.quota + l.rps * (now - s.last)) sum
      → PaceStep l duration err s (tick l duration now sum s)
  cancels : s.returned ≡ false → PaceStep l duration err s (record s { returned = true })
  sends : 0 < s.starting → PaceStep l duration err s (send s)
  receives :
      (sec : ℕ) (response : Response) (latency : ℕ)
      → 0 < s.flying
      → PaceStep l duration err s (receive l sec response latency s)
  abandons : 0 < s.flying → PaceStep l duration err s (abandon s)

pub data Paced (l : TenantLoad) (duration err : ℕ) (first : Pace) : Pace → Type 0 where
  begun : Paced l duration err first first
  next :
      {s s' : Pace}
      → Paced l duration err first s
      → PaceStep l duration err s s'
      → Paced l duration err first s'
