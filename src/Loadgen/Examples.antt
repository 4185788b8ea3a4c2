-- ===== src/Loadgen/Examples.antt =====
-- The load generator at concrete inputs.
use ratelimiter.Base.{
  get_elem?, ℕ, ◌+◌, ◌-◌, ◌*◌, ◌/◌, ◌^◌, ◌≤◌, ◌<◌, ◌≡◌, refl, ◌⊎◌, ◌↔◌, inr, ◌%◌, arith, String,
  List, [], ◌∷◌, some, true, false, length, sum_by, All,
}
use ratelimiter.Base.Int.{pos}
use ratelimiter.Base.Sort.{at_most, below}
use ratelimiter.Bucket.{token}
use ratelimiter.Config.{Config}
use ratelimiter.Worker.Server.{parse_cost}
use ratelimiter.Loadgen.Driver.{
  TenantLoad, TenantResult, no_result, lost, answered, record_response, record_error,
  record_rejected, record_admitted, error_count, percentile,
}
use ratelimiter.Loadgen.Driver.Counted.{is_admitted, is_rejected, is_error, IsBalanced}
use ratelimiter.Loadgen.Driver.Books.{Recorded, record_all, records_balance}
use ratelimiter.Loadgen.Driver.Rank.{percentile_rank}
use ratelimiter.Loadgen.Pacer.{
  load_cost, url_cost, Pace, begin_pace, dispatch, tick, send, receive, ticks, sends, receives,
  Paced, begun, next,
}
use ratelimiter.Loadgen.Pacer.Offered.{offered}
use ratelimiter.Loadgen.Pacer.Guarantee.{
  drift_of_run, offered_on_pace, requests_accounted, url_cost-read,
}
use ratelimiter.Loadgen.Report.{Check, add_buckets, sum_series}
use ratelimiter.Loadgen.Report.Verdict.{verdict}
use ratelimiter.Loadgen.Report.Chart.{axis}
use ratelimiter.Loadgen.Report.Chart.Axis.{axis_lem}
use ratelimiter.Loadgen.Scenarios.Checks.{Checked, scaling_checks}
use ratelimiter.Loadgen.Scenarios.Checks.Idle.{IsUndecided, measured, scaling_passes_idle}
use ratelimiter.Loadgen.Scenarios.{find_scenario, assert_turn, invariant_check}
use ratelimiter.Loadgen.Scenarios.Assertion.{Exceeds, invariant_check_lem}
use ratelimiter.Loadgen.Server.{
  RunRequest, authorized, refused, runs, start_run, RunServer, accepts, RunReach, idle, later,
}
use ratelimiter.Loadgen.Server.Exclusion.{start_run_served}

abbrev responses : List Recorded
responses =
    record { sec = 0; response = answered 200; latency = 900; cost = 5 }
    ∷ record { sec = 2; response = answered 429; latency = 700; cost = 5 }
    ∷ record { sec = 2; response = lost; latency = 0; cost = 5 }
    ∷ record { sec = 1; response = answered 503; latency = 400; cost = 5 }
    ∷ []

abbrev mixed : TenantResult
mixed = record_all no_result responses

three_seconds : length mixed.buckets ≡ 3
unfolding record_response record_error record_rejected record_admitted
three_seconds = refl

records_balance_example :
    (mixed.admitted ≡ sum_by (λ x. is_admitted x.response) responses)
    × (mixed.admitted_tokens ≡ sum_by (λ x. x.cost * is_admitted x.response) responses)
    × (mixed.rejected ≡ sum_by (λ x. is_rejected x.response) responses)
    × (error_count mixed ≡ sum_by (λ x. is_error x.response) responses)
    × IsBalanced mixed
records_balance_example = records_balance responses

abbrev timed : TenantResult
timed = record no_result { latencies = 40 ∷ 10 ∷ 30 ∷ 20 ∷ 50 ∷ [] }

median_of_five : percentile timed 50 ≡ some 30
unfolding percentile
median_of_five = refl

percentile_rank_example :
    (v : ℕ) × (percentile timed 99 ≡ some v)
    × (99 * (length timed.latencies - 1) / 100 < sum_by (at_most v) timed.latencies)
    × (sum_by (below v) timed.latencies ≤ 99 * (length timed.latencies - 1) / 100)
percentile_rank_example = percentile_rank timed 99 (inr refl) (omega arith)

-- 200 requests a second on one slot: ten milliseconds dispatch one and drop one.
abbrev one_slot : TenantLoad
one_slot = record { tenant = "tenant-a"; rps = 200000; concurrency = 1; cost = 5 }

abbrev ticked : Pace
ticked = tick one_slot (10 ^ 9) (10 ^ 7) (2 * 10 ^ 12 + 1) (begin_pace 0 0)

abbrev received : Pace
received = receive one_slot 0 (answered 200) 1500 (send ticked)

received-Paced : Paced one_slot (10 ^ 9) 2 (begin_pace 0 0) received
unfolding begin_pace tick send dispatch
received-Paced =
    next
      (next
        (next begun
          (ticks (10 ^ 7) (2 * 10 ^ 12 + 1) refl (omega arith) (omega arith, omega arith)))
        (sends (omega arith)))
      (receives 0 (answered 200) 1500 (omega arith))

one_dropped : received.result.client_drops ≡ 1
unfolding begin_pace tick send receive dispatch record_response record_error record_rejected
    record_admitted
one_dropped = refl

offered_on_pace_example :
    (token * offered received ≤ one_slot.rps * (received.last - 0) + drift_of_run received-Paced)
    × (one_slot.rps * (received.last - 0)
        < token * (offered received + 1) + drift_of_run received-Paced)
offered_on_pace_example = offered_on_pace 0 0 received-Paced

requests_accounted_example :
    (received.starting + received.flying ≤ one_slot.concurrency)
    × (received.result.sent
        ≡ received.flying
          + (received.result.admitted
              + received.result.rejected
              + error_count received.result
              + received.silent))
    × (received.result.admitted_tokens ≡ load_cost one_slot * received.result.admitted)
requests_accounted_example = requests_accounted 0 0 received-Paced

url_cost-read_example : parse_cost (url_cost one_slot) ≡ some (pos (load_cost one_slot))
url_cost-read_example = url_cost-read one_slot (omega arith)

abbrev two_checks : List Check
two_checks =
    record { name = "no errors"; ok = true; detail = "0 errors" }
    ∷ record { name = "excess rejected"; ok = false; detail = "0 rejected" }
    ∷ []

names_the_failed : verdict two_checks ≡ "FAIL: excess rejected"
names_the_failed = refl

abbrev two_results : List (String × TenantResult)
two_results =
    ("tenant-a", mixed)
    ∷ (
      "tenant-b",
      record_all no_result
          (record { sec = 0; response = answered 200; latency = 800; cost = 1 } ∷ []),
    )
    ∷ []

two_admitted : sum_series two_results (λ b. b.admitted) ≡ 2 ∷ 0 ∷ 0 ∷ []
unfolding sum_series add_buckets record_response record_error record_rejected record_admitted
two_admitted = refl

-- Four tokens a second and leases of one token.
abbrev slow : Config
slow = record {
  lease = record { size = pos 1; duration_ms = pos 1000 };
  tenants = ("tenant-a", pos 4000) ∷ [];
}

-- Five tokens in no time, against a burst of 4 and a slack of 1.2 for one worker.
within_slack : (invariant_check slow two_results 0 1 0).0 ≡ true
unfolding invariant_check assert_turn record_response record_error record_rejected record_admitted
within_slack = refl

invariant_check_lem_example :
    ((invariant_check slow two_results 0 0 0).0 ≡ false) ↔ Exceeds slow two_results 0 0 0
invariant_check_lem_example = invariant_check_lem slow two_results 0 0 0

abbrev browser : RunRequest
browser = record { authorization = ""; token = "rldemo-c7f31a92d4e85b06"; scenario = "scaling" }

abbrev busy_server : RunServer
busy_server = record { locked = (start_run false browser).0; running = "scaling" ∷ [] }

busy_server-RunReach : RunReach busy_server
unfolding start_run
busy_server-RunReach = later idle (accepts browser "scaling" refl)

start_run_served_example :
    ((busy_server.running ≡ []) × ((start_run busy_server.locked browser).1 ≡ runs "scaling"))
    ⊎ (¬ (busy_server.running ≡ [])
        × ((start_run busy_server.locked browser).1
            ≡ refused 409 "another scenario is already running; try again shortly"))
unfolding authorized find_scenario
start_run_served_example = start_run_served browser "scaling" busy_server-RunReach refl refl

axis_lem_example :
    (out : List ℕ) × (axis 2 40 ≡ some out)
    × ((i : ℕ) → i < 40 → (get_elem? out i ≡ some b'|') ↔ ((i % 5 ≡ 0) × (2 * i ≤ 40)))
axis_lem_example = axis_lem 40

-- Two requests that failed, and one that was answered 503.
abbrev failures : List Recorded
failures =
    record { sec = 0; response = lost; latency = 0; cost = 1 }
    ∷ record { sec = 1; response = answered 503; latency = 9; cost = 1 }
    ∷ record { sec = 1; response = lost; latency = 0; cost = 1 }
    ∷ []

failures-IsUndecided : IsUndecided failures
failures-IsUndecided = record { admitted = refl; rejected = refl }

scaling_passes_idle_example :
    (checks : Checked) × (scaling_checks slow
        (measured failures)
        (measured failures)
        (measured failures)
        (2500, 1)
        25
      ≡ some checks)
    × All (λ (name, ok). ok ≡ true) checks
scaling_passes_idle_example =
    scaling_passes_idle slow failures failures failures (2500, 1) 25 (omega arith) (omega arith)
      failures-IsUndecided failures-IsUndecided failures-IsUndecided
