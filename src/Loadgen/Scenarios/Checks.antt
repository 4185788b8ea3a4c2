-- ===== src/Loadgen/Scenarios/Checks.antt =====
-- internal/loadgen/scenarios.go: the checks of the scenarios, over what was measured.
-- A check is its name and whether it holds; its detail prints numbers. `none` is a panic: a tenant
-- without a result, or an index out of range.
pub mod Idle
use ratelimiter.Base.{
  ℕ, zero, suc, ◌+◌, ◌-◌, ◌*◌, ◌≤◌, String, List, [], ◌∷◌, ◌++◌, Option, none, some, Bool, true,
  false, ◌&&◌, ◌||◌, ltb, leb, ◌==◌, if◌then◌else◌, sum_by,
}
use ratelimiter.Base.Int.{ℤ, to_nat}
use ratelimiter.Base.Dict.{lookup}
use ratelimiter.Config.{Config}
use ratelimiter.Coordinator.{Stats}
use ratelimiter.Loadgen.Driver.{SecBucket, TenantResult, percentile, error_count, window_rate}
use ratelimiter.Loadgen.Rates.{Rate, rate_add, rate_leb, rate_ltb, percent, pct, within}
use ratelimiter.Loadgen.Report.{sum_series, total_sent, total_lease_requests}
use ratelimiter.Loadgen.Scenarios.{invariant_check, sum_series_at}

infixl 5 ◌>>=◌
abbrev pub ◌>>=◌ {ℓ κ} : {A : Type ℓ} {B : Type κ} → Option A → (A → Option B) → Option B
none >>= f = none
some a >>= f = f a

abbrev pub Checked : Type 0
Checked = List (String × Bool)

-- `cfg.Tenants[name]`, in tokens per second; 0 if there is none.
abbrev pub limit_of : Config → String → Rate
limit_of cfg name = elim (lookup name cfg.tenants) [
  | none ↦ (0, 1)
  | some rate ↦ (to_nat rate, 1000)
]

abbrev pub invariant_name : String
invariant_name = "global invariant: admitted tokens <= rate x window + burst (+slack)"

-- The last check of a scenario, for a window of whole seconds.
abbrev pub invariant_holds : Config → List (String × TenantResult) → ℕ → ℕ → ℕ → String × Bool
invariant_holds cfg rs secs workers restarts =
    (invariant_name, (invariant_check cfg rs (secs * 1_000_000_000) workers restarts).0)

-- `runBaseline`, with the coordinator's counters before and after.
unfoldable pub baseline_checks :
    Config
    → List (String × TenantResult)
    → (secs : ℕ) → Option Stats
    → Option Stats
    → Option Checked
unfolding pct within error_count total_sent total_lease_requests
baseline_checks cfg rs secs before after = do
  a ← lookup "tenant-a" rs
  b ← lookup "tenant-b" rs
  let calls_before = total_lease_requests before
  let calls_after = total_lease_requests after
  let sent = total_sent rs
  some (
      (
        "tenant-a admitted token rate at its limit (weighted requests)",
        within (a.admitted_tokens, secs) (limit_of cfg "tenant-a") 10,
      )
      ∷ (
        "tenant-a excess rejected with 429",
        ltb 0 a.rejected && rate_ltb (15, 1) (pct a.rejected a.sent),
      )
      ∷ ("tenant-b under limit fully admitted", rate_leb (99, 1) (pct b.admitted b.sent))
      ∷ ("no errors", rate_leb (pct (error_count a + error_count b) sent) (1, 10))
      ∷ (
        "workers do not consult coordinator per request",
        ltb calls_before calls_after && leb (10 * (calls_after - calls_before)) (2 * sent),
      )
      ∷ invariant_holds cfg rs secs 2 0
      ∷ [])

-- `runHotTenant`, with the cap of the 99th percentile in microseconds.
unfoldable pub hot_tenant_checks :
    Config → List (String × TenantResult) → (secs p99_cap : ℕ) → Option Checked
unfolding pct within error_count total_sent percentile
hot_tenant_checks cfg rs secs p99_cap = do
  a ← lookup "tenant-a" rs
  b ← lookup "tenant-b" rs
  c ← lookup "tenant-c" rs
  p99_b ← percentile b 99
  p99_c ← percentile c 99
  some (
      ("tenant-b unaffected: full admission", rate_leb (99, 1) (pct b.admitted b.sent))
      ∷ ("tenant-c unaffected: full admission", rate_leb (99, 1) (pct c.admitted c.sent))
      ∷ ("tenant-b p99 stays low", leb p99_b p99_cap)
      ∷ ("tenant-c p99 stays low", leb p99_c p99_cap)
      ∷ (
        "negligible 5xx/transport errors",
        rate_leb (pct (error_count a + error_count b + error_count c) (total_sent rs)) (1, 10),
      )
      ∷ (
        "hot tenant still gets its configured share",
        within (a.admitted, secs) (limit_of cfg "tenant-a") 15,
      )
      ∷ invariant_holds cfg rs secs 2 0
      ∷ [])

-- The decisions of tenant-hi per second, in a phase of `runScaling`.
unfoldable pub throughput : List (String × TenantResult) → ℕ → Option Rate
throughput rs secs = do r ← lookup "tenant-hi" rs; some (r.admitted + r.rejected, secs)

-- `runScaling`, with the results of its phases at 1, 2 and 4 replicas.
unfoldable pub scaling_checks :
    Config → (one two four : List (String × TenantResult)) → Rate → (secs : ℕ) → Option Checked
unfolding throughput
scaling_checks cfg one two four offered secs = do
  t1 ← throughput one secs
  t2 ← throughput two secs
  t4 ← throughput four secs
  some (
      ("1 replica is saturated (test validity)", rate_leb t1 (percent 90 offered))
      ∷ ("2 replicas beat 1 by >=1.3x", rate_leb (percent 130 t1) t2)
      ∷ ("4 replicas beat 1 by >=2.0x", rate_leb (percent 200 t1) t4)
      ∷ invariant_holds cfg one secs 1 0
      ∷ invariant_holds cfg two secs 2 0
      ∷ invariant_holds cfg four secs 4 0
      ∷ [])

-- The sum over the tenants of `WindowRate`.
unfoldable pub window_total : List (String × TenantResult) → ℕ → ℕ → (SecBucket → ℕ) → Rate
unfolding window_rate
window_total [] from to metric = (0, 1)
window_total ((name, r) ∷ rs) from to metric =
    rate_add (window_rate r from to metric) (window_total rs from to metric)

-- The errors of the seconds at which a test holds, from the second `i` on.
unfoldable pub errors_at : (ℕ → Bool) → ℕ → List SecBucket → ℕ
errors_at test i [] = 0
errors_at test i (b ∷ bs) =
    let rest = errors_at test (i + 1) bs in if test i then b.errors + rest else rest

abbrev pub errors_where : (ℕ → Bool) → List (String × TenantResult) → ℕ
errors_where test rs = sum_by (λ (name, r). errors_at test 0 r.buckets) rs

-- `runWorkerKill`
unfoldable pub worker_kill_checks :
    Config → List (String × TenantResult) → (secs kill_at : ℕ) → Checked
unfolding window_total errors_at pct within error_count total_sent
worker_kill_checks cfg rs secs kill_at =
    let pre = window_total rs 5 (kill_at - 1) (λ b. b.admitted) in
    let post = window_total rs (kill_at + 10) (secs - 1) (λ b. b.admitted) in
    let outside = errors_where (λ i. ltb i (kill_at - 1) || ltb (kill_at + 6) i) rs in
    let sent = total_sent rs in
    let total = sum_by (λ (name, r). error_count r) rs in
    ("recovers to pre-kill admission rate on 1 worker", within post pre 10)
    ∷ ("disturbance is temporary: errors only near the kill", rate_leb (pct outside sent) (2, 10))
    ∷ ("total errors are a small fraction", rate_leb (pct total sent) (2, 1))
    ∷ invariant_holds cfg rs secs 2 0
    ∷ []

-- The loop that looks for the first second, from `from` on, whose admissions reach nine tenths of
-- the baseline; `i` is the second of the head of the series.
unfoldable pub recover_sec : Rate → (from i : ℕ) → List ℕ → Option ℕ
recover_sec base from i [] = none
recover_sec base from i (n ∷ ns) =
    let rest = recover_sec base from (i + 1) ns in
    if leb from i && rate_leb (percent 90 base) (n, 1) then some i else rest

abbrev pub is_some {ℓ} : {A : Type ℓ} → Option A → Bool
is_some none = false
is_some (some a) = true

-- `runCoordinatorKill`, with the rate that the loads offer; a run of less than 11 seconds panics at
-- the window of its tail.
unfoldable pub coordinator_kill_checks :
    Config → List (String × TenantResult) → (secs kill_at restore_at : ℕ) → Rate → Option Checked
unfolding window_total errors_at within recover_sec
coordinator_kill_checks cfg rs secs kill_at restore_at offered =
    let base = window_total rs 3 (kill_at - 1) (λ b. b.admitted) in
    let closed = window_total rs (kill_at + 5) (restore_at - 2) (λ b. b.admitted) in
    let closed_rejected = window_total rs (kill_at + 5) (restore_at - 2) (λ b. b.rejected) in
    let recovered = window_total rs (secs - 11) (secs - 1) (λ b. b.admitted) in
    let errors = errors_where (λ i. leb (kill_at + 5) i && ltb i (restore_at - 2)) rs in
    let found = recover_sec base restore_at 0 (sum_series rs (λ b. b.admitted)) in
    if ltb secs 11
    then none
    else some (
        (
          "workers keep admitting briefly after the kill (leased budget)",
          ltb 0 (sum_series_at rs kill_at) || ltb 0 (sum_series_at rs (kill_at + 1)),
        )
        ∷ (
          "then fails closed: admissions ~0 while coordinator is down",
          rate_leb closed (percent 5 base),
        )
        ∷ (
          "fail-closed means clean 429s, not errors",
          rate_leb (percent 80 offered) closed_rejected && errors == 0,
        )
        ∷ (
          "recovers to baseline after coordinator returns",
          is_some found && within recovered base 10,
        )
        ∷ invariant_holds cfg rs secs 2 1
        ∷ [])
