-- ===== src/Loadgen/Driver/Rank.antt =====
-- The latency that `Percentile` returns, by its rank.
use ratelimiter.Base.{
  ℕ, zero, suc, ◌-◌, ◌*◌, ◌/◌, ◌≤◌, ◌<◌, ◌≡◌, ◌⊎◌, refl, subst, mul_mono, div_bounds, List, [], ◌∷◌,
  some, inl, inr, Bool-cases, ltb, arith, ◌==◌, length, get_elem?, sum_by, All, if◌then◌else◌,
}
use ratelimiter.Base.Sort.{sort, at_most, below, IsSorted, sum_by-sort, length-sort, sort-IsSorted}
use ratelimiter.Loadgen.Driver.{TenantResult, percentile}

All-get : (P : ℕ → Type 0) (xs : List ℕ) (i v : ℕ) → get_elem? xs i ≡ some v → All P xs → P v
All-get P [] i v e h = absurd (ground (arith, e))
All-get P (x ∷ xs) zero v e h = let same : x ≡ v = ground (arith, e) in subst P same h.0
All-get P (x ∷ xs) (suc i) v e (p, h) = All-get P xs i v e h

none_below : (v : ℕ) (xs : List ℕ) → All (λ y. v ≤ y) xs → sum_by (below v) xs ≡ 0
none_below v [] h = refl
none_below v (x ∷ xs) (p, h) = ground (arith, none_below v xs h)

-- The element at an index of a sorted list: how many are at most it, and how many are below it.
rank_at :
    (xs : List ℕ) (i v : ℕ)
    → IsSorted xs
    → get_elem? xs i ≡ some v
    → (i < sum_by (at_most v) xs) × (sum_by (below v) xs ≤ i)
rank_at [] i v s e = ground (arith, e)
rank_at (x ∷ xs) zero v (low, s) e =
    let same : x ≡ v = ground (arith, e) in ground (arith, same, none_below v xs (rw same at low))
rank_at (x ∷ xs) (suc i) v (low, s) e =
    let h : x ≤ v = All-get (λ y. x ≤ y) xs i v e low in ground (arith, rank_at xs i v s e, h)

get_elem?-below : (xs : List ℕ) (i : ℕ) → i < length xs → (v : ℕ) × (get_elem? xs i ≡ some v)
get_elem?-below [] i h = absurd (omega (arith, h))
get_elem?-below (x ∷ xs) zero h = (x, refl)
get_elem?-below (x ∷ xs) (suc i) h = get_elem?-below xs i (omega (arith, h))

-- The latency at the index, by how many are at most it and how many are below it.
percentile_at :
    (r : TenantResult) (p : ℕ)
    → p ≤ 100
    → 0 < length r.latencies
    → (v : ℕ) × (percentile r p ≡ some v)
      × (p * (length r.latencies - 1) / 100 < sum_by (at_most v) r.latencies)
      × (sum_by (below v) r.latencies ≤ p * (length r.latencies - 1) / 100)
unfolding percentile
percentile_at r p h nonempty =
    let n = length r.latencies in
    let inside : p * (n - 1) / 100 < length (sort r.latencies) = omega (
      arith,
      length-sort r.latencies,
      nonempty,
      mul_mono (n - 1) p 100 h,
      div_bounds (p * (n - 1)) 100 (omega arith),
    ) in
    let (v, e) = get_elem?-below (sort r.latencies) (p * (n - 1) / 100) inside in
    let (above, under) =
      rank_at (sort r.latencies) (p * (n - 1) / 100) v (sort-IsSorted r.latencies) e in
    let e' : (if n == 0 then some 0 else get_elem? (sort r.latencies) (p * (n - 1) / 100))
        ≡ some v =
      ground (arith, e, nonempty) in
    (
      v,
      e',
      omega (arith, above, sum_by-sort (at_most v) r.latencies),
      omega (arith, under, sum_by-sort (below v) r.latencies),
    )

pub percentile_found : (r : TenantResult) (p : ℕ) → p ≤ 100 → (v : ℕ) × (percentile r p ≡ some v)
unfolding percentile
percentile_found r p h = elim (Bool-cases (ltb 0 (length r.latencies))) [
  | inl e ↦ let (v, found, _, _) = percentile_at r p h (ground (arith, e)) in (v, found)
  | inr e ↦ (0, ground (arith, e))
]

-- For the percentiles that the load generator asks for, 50 and 99, `Percentile` does not index out of
-- range: of n > 0 latencies it returns one that more than p/100 * (n - 1) of them, rounded down, do
-- not exceed, and at most so many are below.
pub percentile_rank :
    (r : TenantResult) (p : ℕ)
    → (p ≡ 50) ⊎ (p ≡ 99)
    → 0 < length r.latencies
    → (v : ℕ) × (percentile r p ≡ some v)
      × (p * (length r.latencies - 1) / 100 < sum_by (at_most v) r.latencies)
      × (sum_by (below v) r.latencies ≤ p * (length r.latencies - 1) / 100)
percentile_rank r p asked =
    percentile_at r p (elim asked [ inl e ↦ omega (arith, e) | inr e ↦ omega (arith, e) ])
