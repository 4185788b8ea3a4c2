-- ===== src/Loadgen/Report/Chart/Bars.antt =====
-- The bars of the chart.
use ratelimiter.Base.{
  ℕ, zero, suc, ◌+◌, ◌*◌, ◌/◌, ◌≤◌, ◌<◌, min, ◌≡◌, refl, arith, List, [], ◌∷◌, map, some, leb, ◌==◌,
  if◌then◌else◌, get_elem?, sum_by, div_bounds, mul_mono,
}
use ratelimiter.Loadgen.Report.Chart.{height, cell, rows}
use ratelimiter.Loadgen.Report.Series.{value_at}

abbrev pub is_full : ℕ → ℕ
is_full c = if c == b'#' then 1 else 0

-- The full bytes of a column, over the rows of a chart.
abbrev pub bar : ℕ → List (List ℕ) → ℕ
bar i lines = sum_by (λ line. is_full (value_at line i)) lines

value_at-map :
    (f : ℕ → ℕ) (cols : List ℕ) (i v : ℕ)
    → get_elem? cols i ≡ some v
    → value_at (map f cols) i ≡ f v
value_at-map f [] i v e = absurd (ground (arith, e))
value_at-map f (x ∷ cols) zero v e = let same : x ≡ v = ground (arith, e) in rw same refl
value_at-map f (x ∷ cols) (suc i) v e = value_at-map f cols i v e

full : (max row v : ℕ) → is_full (cell max row v) ≡ (if leb (max * row) (height * v) then 1 else 0)
unfolding cell
full max row v = ground arith

-- Of the lowest rows, those up to the quotient `q` are full.
bar-rows :
    (max v q i : ℕ) (cols : List ℕ)
    → get_elem? cols i ≡ some v
    → max * q ≤ height * v
    → height * v < max * (q + 1)
    → (n : ℕ) → bar i (rows max n cols) ≡ min n q
unfolding rows
bar-rows max v q i cols e low high zero = omega arith
bar-rows max v q i cols e low high (suc n) =
    let ih = bar-rows max v q i cols e low high n in
    let here : is_full (value_at (map (cell max (suc n)) cols) i)
        ≡ (if leb (max * suc n) (height * v) then 1 else 0) =
      rw (value_at-map (cell max (suc n)) cols i v e) (full max (suc n) v) in
    ground (arith, ih, here, low, high, mul_mono max (suc n) q, mul_mono max (q + 1) (suc n))

-- Over the rows of a chart, a column of height `v` is full in as many rows as whole eighths of the
-- peak fit into it, at most all eight.
pub chart_bars :
    (max v i : ℕ) (cols : List ℕ)
    → 0 < max
    → get_elem? cols i ≡ some v
    → bar i (rows max height cols) ≡ min height (height * v / max)
chart_bars max v i cols h e =
    let q = div_bounds (height * v) max h in
    bar-rows max v (height * v / max) i cols e q.0 q.1 height
