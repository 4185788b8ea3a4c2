-- ===== src/Loadgen/Scenarios.antt =====
-- internal/loadgen/scenarios.go: the registry and the universal assertion.
-- A scenario is its name here: the description is a text, and what it runs drives the cluster.
-- Tokens are counted in units of 10^-12, and the 1.2 leases of a worker's slack are 12 * 10^11 units
-- for each token of a lease. The detail's numbers are listed with each tenant, not printed.
pub mod Assertion
pub mod Hooks
pub mod Loads
pub mod Scaling
pub mod Kills
pub mod Plain
pub mod Runs
mod Examples
pub mod Checks
use Prim.Native.String.{compare as str_compare}
use text.Mathlib.Text.{is_le}
use ratelimiter.Base.{
  ◌%◌, ◌==◌, ℕ, zero, suc, ◌+◌, ◌-◌, ◌*◌, ◌^◌, String, List, [], ◌∷◌, ◌++◌, map, Option, none, some,
  Bool, true, false, ◌&&◌, ltb, leb, if◌then◌else◌, str_eq, get_elem?,
}
use ratelimiter.Base.Int.{ℤ, to_nat}
use ratelimiter.Base.Dict.{lookup}
use ratelimiter.Config.{Config, burst_seconds}
use ratelimiter.Bucket.{token}
use ratelimiter.Loadgen.Driver.{TenantResult, SecBucket}
use ratelimiter.Loadgen.Report.{sum_series}

abbrev pub scenarios : List String
scenarios = "baseline" ∷ "hot-tenant" ∷ "scaling" ∷ "worker-kill" ∷ "coordinator-kill" ∷ []

-- `FindScenario`, over a registry.
unfoldable pub find_scenario : String → List String → Option String
find_scenario name [] = none
find_scenario name (s ∷ rest) = if str_eq s name then some s else find_scenario name rest

-- `sumSeriesAt`
unfoldable pub sum_series_at : List (String × TenantResult) → ℕ → ℕ
unfolding sum_series
sum_series_at rs sec = elim (get_elem? (sum_series rs (λ b. b.admitted)) sec) [
  | none ↦ 0
  | some n ↦ n
]

-- What `progress` prints, every fifth second: the admissions, rejections and errors of the last
-- complete second, 0 if there is none.
unfoldable pub second_before : ℕ → List ℕ → ℕ
second_before zero s = 0
second_before (suc sec) s = elim (get_elem? s sec) [ none ↦ 0 | some n ↦ n ]

unfoldable pub progress : ℕ → List (String × TenantResult) → Option (ℕ × ℕ × ℕ)
unfolding second_before sum_series
progress sec rs =
    if sec % 5 == 0
    then some (
      second_before sec (sum_series rs (λ b. b.admitted)),
      second_before sec (sum_series rs (λ b. b.rejected)),
      second_before sec (sum_series rs (λ b. b.errors)),
    )
    else none

-- `ov`: the parameter of the query, empty if it is missing, with `strconv.ParseFloat` as a parameter.
unfoldable pub ov : {A : Type 0} → (String → Option A) → String → A → A
ov parse_float v def = if str_eq v "" then def else elim (parse_float v) [ none ↦ def | some f ↦ f ]

unfoldable pub insert_name : String → List String → List String
insert_name name [] = name ∷ []
insert_name name (s ∷ ss) =
    let rest = insert_name name ss in if is_le (str_compare name s) then name ∷ s ∷ ss else s ∷ rest

-- `sort.Strings`
unfoldable pub sort_names : List String → List String
unfolding insert_name
sort_names [] = []
sort_names (s ∷ ss) = insert_name s (sort_names ss)

-- `TenantsSorted`
unfoldable pub tenants_sorted : List (String × TenantResult) → List String
unfolding sort_names
tenants_sorted rs = sort_names (map (λ (name, r). name) rs)

-- `bound`, in units, for a window of `dur` nanoseconds.
unfoldable pub bound_of : Config → ℕ → ℕ → ℕ → ℕ → ℕ
bound_of cfg rate dur workers restarts =
    let burst = rate * (burst_seconds * 10 ^ 9) in
    let lease_slack = workers * (12 * 10 ^ 11) * to_nat cfg.lease.size in
    rate * dur + burst + lease_slack + restarts * burst

-- The numbers of one turn of the loop: the admitted tokens and the bound, `none` for a tenant that
-- is not configured.
unfoldable pub turn_of : Config → ℕ → ℕ → ℕ → Option ℤ → Option TenantResult → Option (ℕ × ℕ)
unfolding bound_of
turn_of cfg dur workers restarts (some rate) (some r) =
    some (token * r.admitted_tokens, bound_of cfg (to_nat rate) dur workers restarts)
turn_of cfg dur workers restarts _ _ = none

unfoldable pub turn : Config → List (String × TenantResult) → ℕ → ℕ → ℕ → String → Option (ℕ × ℕ)
unfolding lookup turn_of
turn cfg rs dur workers restarts name =
    turn_of cfg dur workers restarts (lookup name cfg.tenants) (lookup name rs)

-- The rest of a turn: `ok` and the detail.
unfoldable pub assert_turn :
    String → Option (ℕ × ℕ) → Bool × List (String × ℕ × ℕ) → Bool × List (String × ℕ × ℕ)
assert_turn name none state = state
assert_turn name (some (tokens, bound)) (ok, detail) =
    (if ltb bound tokens then false else ok, detail ++ (name, tokens, bound) ∷ [])

-- The loop of `invariantCheck`.
unfoldable pub invariant_loop :
    (String → Option (ℕ × ℕ))
    → List String
    → Bool × List (String × ℕ × ℕ)
    → Bool × List (String × ℕ × ℕ)
invariant_loop test [] state = state
invariant_loop test (name ∷ names) state =
    invariant_loop test names (assert_turn name (test name) state)

-- `invariantCheck`
unfoldable pub invariant_check :
    Config → List (String × TenantResult) → ℕ → ℕ → ℕ → Bool × List (String × ℕ × ℕ)
unfolding turn invariant_loop tenants_sorted
invariant_check cfg rs dur workers restarts =
    invariant_loop (turn cfg rs dur workers restarts) (tenants_sorted rs) (true, [])
