-- ===== src/Loadgen/Report.antt =====
-- internal/loadgen/report.go: the checks, the series and the totals of a run.
-- A line that `Printf` writes is an entry of a list, without the line breaks. A map of results is an
-- association list in the order of the iteration. Each result is read under its lock, and no other
-- goroutine appends to it in between: the break of `sumSeries` is what a live result needs.
pub mod Verdict
pub mod Series
pub mod Chart
pub mod Table
use Prim.Native.String.{◌++◌ as str_append}
use ratelimiter.Base.{
  ℕ, zero, suc, ◌+◌, ◌-◌, ◌*◌, ◌/◌, String, List, [], ◌∷◌, ◌++◌, map, Option, none, some, Bool,
  true, false, not, ◌&&◌, ltb, leb, ◌==◌, if◌then◌else◌, length, sum_by,
}
use ratelimiter.Loadgen.Driver.{SecBucket, TenantResult}
use ratelimiter.Coordinator.{TenantStats, Stats}

pub record Check : Type 0 where
  pub name : String
  pub ok : Bool
  pub detail : String

abbrev pub concat : List String → String
concat [] = ""
concat (s ∷ ss) = str_append s (concat ss)

-- `strings.Join`
abbrev pub join : String → List String → String
join sep [] = ""
join sep (s ∷ []) = s
join sep (s ∷ t ∷ ss) = str_append s (str_append sep (join sep (t ∷ ss)))

abbrev pub mark : Bool → String
mark true = "PASS"
mark false = "FAIL"

abbrev pub check_line : Check → String
check_line c = concat ("  [" ∷ mark c.ok ∷ "] " ∷ c.name ∷ ": " ∷ c.detail ∷ [])

-- The loop of `renderChecks`: what is written, `pass` and `failed`.
unfoldable pub render_loop :
    List Check → List String × Bool × List String → List String × Bool × List String
render_loop [] state = state
render_loop (c ∷ cs) (written, pass, failed) =
    let rest = render_loop cs in
    if c.ok
    then rest (written ++ check_line c ∷ [], pass, failed)
    else rest (written ++ check_line c ∷ [], false, failed ++ c.name ∷ [])

-- `renderChecks`: the lines and the result.
unfoldable pub render_checks : List Check → List String × Bool
unfolding render_loop
render_checks checks =
    let (written, pass, failed) = render_loop checks ("CHECKS" ∷ [], true, []) in
    let last = if pass then "PASS" else str_append "FAIL: " (join "; " failed) in
    (written ++ "" ∷ last ∷ [], pass)

-- `sumSeries`: the longest result, and the loop that adds each result's buckets.
unfoldable pub longest : ℕ → List (String × TenantResult) → ℕ
longest n [] = n
longest n ((name, r) ∷ rs) = longest (if ltb n (length r.buckets) then length r.buckets else n) rs

unfoldable pub zeros : ℕ → List ℕ
zeros zero = []
zeros (suc n) = 0 ∷ zeros n

unfoldable pub add_buckets : (SecBucket → ℕ) → List ℕ → List SecBucket → List ℕ
add_buckets metric [] bs = []
add_buckets metric (n ∷ out) [] = n ∷ out
add_buckets metric (n ∷ out) (b ∷ bs) = (n + metric b) ∷ add_buckets metric out bs

unfoldable pub add_results : (SecBucket → ℕ) → List ℕ → List (String × TenantResult) → List ℕ
add_results metric out [] = out
add_results metric out ((name, r) ∷ rs) = add_results metric (add_buckets metric out r.buckets) rs

unfoldable pub sum_series : List (String × TenantResult) → (SecBucket → ℕ) → List ℕ
unfolding longest zeros add_results
sum_series rs metric = add_results metric (zeros (longest 0 rs)) rs

-- `totalSent`
unfoldable pub total_sent : List (String × TenantResult) → ℕ
total_sent rs = sum_by (λ (name, r). r.sent) rs

-- `totalLeaseRequests`, of a nil pointer too.
unfoldable pub total_lease_requests : Option Stats → ℕ
total_lease_requests none = 0
total_lease_requests (some s) = sum_by (λ (name, t). t.lease_requests) s.tenants

-- What comes of a GET of the coordinator's counters: no response, or one with its status and what the
-- JSON decoder makes of its body.
pub data StatsResponse : Type 0 where
  unreachable : StatsResponse
  stats_response : (status : ℕ) → (body : Option Stats) → StatsResponse

-- `CoordStats`, without the texts of its errors.
unfoldable pub coord_stats : StatsResponse → Option Stats
coord_stats unreachable = none
coord_stats (stats_response status body) = if status == 200 then body else none
