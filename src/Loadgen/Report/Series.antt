-- ===== src/Loadgen/Report/Series.antt =====
-- The series of `sumSeries`, by the results.
use ratelimiter.Base.{
  ℕ, zero, suc, ◌+◌, ◌≤◌, ◌≡◌, refl, arith, String, List, [], ◌∷◌, ltb, if◌then◌else◌, length,
  sum_by, All,
}
use ratelimiter.Loadgen.Driver.{SecBucket, TenantResult}
use ratelimiter.Loadgen.Report.{longest, zeros, add_buckets, add_results, sum_series}

-- The entry at an index, 0 out of range.
abbrev pub value_at : List ℕ → ℕ → ℕ
value_at [] i = 0
value_at (n ∷ ns) zero = n
value_at (n ∷ ns) (suc i) = value_at ns i

-- The metric of a second, 0 out of range.
abbrev pub metric_at : (SecBucket → ℕ) → ℕ → List SecBucket → ℕ
metric_at metric i [] = 0
metric_at metric zero (b ∷ bs) = metric b
metric_at metric (suc i) (b ∷ bs) = metric_at metric i bs

-- No result has more seconds than the series.
abbrev Fits : ℕ → List (String × TenantResult) → Type 0
Fits n = All (λ (name, r). length r.buckets ≤ n)

longest_grows : (n : ℕ) (rs : List (String × TenantResult)) → n ≤ longest n rs
unfolding longest
longest_grows n [] = omega arith
longest_grows n ((name, r) ∷ rs) =
    ground (arith, longest_grows n rs, longest_grows (length r.buckets) rs)

longest-Fits : (n : ℕ) (rs : List (String × TenantResult)) → Fits (longest n rs) rs
unfolding longest
longest-Fits n [] = tt
longest-Fits n ((name, r) ∷ rs) =
    let top = if ltb n (length r.buckets) then length r.buckets else n in
    (ground (arith, longest_grows top rs), longest-Fits top rs)

zeros_lem :
    (n i : ℕ)
    → (length (zeros n) ≡ n) × (value_at (zeros n) i ≡ 0) × (sum_by (λ x. x) (zeros n) ≡ 0)
unfolding zeros
zeros_lem zero i = (refl, refl, refl)
zeros_lem (suc n) zero =
    let ih = zeros_lem n zero in (omega (arith, ih.0), refl, omega (arith, ih.2))
zeros_lem (suc n) (suc i) =
    let ih = zeros_lem n i in (omega (arith, ih.0), ih.1, omega (arith, ih.2))

add_buckets_lem :
    (metric : SecBucket → ℕ) (out : List ℕ) (bs : List SecBucket) (i : ℕ)
    → length bs ≤ length out
    → (length (add_buckets metric out bs) ≡ length out)
      × (value_at (add_buckets metric out bs) i ≡ value_at out i + metric_at metric i bs)
      × (sum_by (λ x. x) (add_buckets metric out bs) ≡ sum_by (λ x. x) out + sum_by metric bs)
unfolding add_buckets
add_buckets_lem metric [] [] i h = (refl, refl, refl)
add_buckets_lem metric [] (b ∷ bs) i h = absurd (omega (arith, h))
add_buckets_lem metric (n ∷ out) [] i h = (refl, omega arith, omega arith)
add_buckets_lem metric (n ∷ out) (b ∷ bs) zero h =
    let ih = add_buckets_lem metric out bs zero (omega (arith, h)) in
    (omega (arith, ih.0), refl, omega (arith, ih.2))
add_buckets_lem metric (n ∷ out) (b ∷ bs) (suc i) h =
    let ih = add_buckets_lem metric out bs i (omega (arith, h)) in
    (omega (arith, ih.0), ih.1, omega (arith, ih.2))

add_results_lem :
    (metric : SecBucket → ℕ) (out : List ℕ) (rs : List (String × TenantResult)) (i : ℕ)
    → Fits (length out) rs
    → (length (add_results metric out rs) ≡ length out)
      × (value_at (add_results metric out rs) i
          ≡ value_at out i + sum_by (λ (name, r). metric_at metric i r.buckets) rs)
      × (sum_by (λ x. x) (add_results metric out rs)
          ≡ sum_by (λ x. x) out + sum_by (λ (name, r). sum_by metric r.buckets) rs)
unfolding add_results
add_results_lem metric out [] i h = (refl, omega arith, omega arith)
add_results_lem metric out ((name, r) ∷ rs) i (p, h) =
    let one = add_buckets_lem metric out r.buckets i p in
    let ih = add_results_lem metric (add_buckets metric out r.buckets) rs i (rw one.0 h) in
    (omega (arith, one.0, ih.0), omega (arith, one.1, ih.1), omega (arith, one.2, ih.2))

-- The series of `sumSeries` is as long as the longest result; at each second it is the sum of the
-- metric over all tenants, a result that has no such second counting 0; and no bucket is left out
-- of its total.
pub sum_series_lem :
    (metric : SecBucket → ℕ) (rs : List (String × TenantResult)) (i : ℕ)
    → (length (sum_series rs metric) ≡ longest 0 rs)
      × (value_at (sum_series rs metric) i ≡ sum_by (λ (name, r). metric_at metric i r.buckets) rs)
      × (sum_by (λ x. x) (sum_series rs metric) ≡ sum_by (λ (name, r). sum_by metric r.buckets) rs)
unfolding sum_series
sum_series_lem metric rs i =
    let start = zeros_lem (longest 0 rs) i in
    let all = add_results_lem metric (zeros (longest 0 rs)) rs i (rw start.0 (longest-Fits 0 rs)) in
    (omega (arith, start.0, all.0), omega (arith, start.1, all.1), omega (arith, start.2, all.2))
