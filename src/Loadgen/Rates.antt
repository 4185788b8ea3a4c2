-- ===== src/Loadgen/Rates.antt =====
-- The rates of internal/loadgen/scenarios.go, which are float64 in the source, as exact fractions. A
-- number over 0 is what it is in the source: infinite, and NaN if the number is 0, which no comparison
-- holds of.
use ratelimiter.Base.{not, ℕ, ◌+◌, ◌-◌, ◌*◌, Bool, ◌&&◌, ltb, leb, ◌==◌, if◌then◌else◌}

abbrev pub Rate : Type 0
Rate = ℕ × ℕ

abbrev pub rate_add : Rate → Rate → Rate
rate_add (a, b) (c, d) = (a * d + c * b, b * d)

abbrev pub is_nan : Rate → Bool
is_nan (a, b) = a == 0 && b == 0

abbrev pub rate_leb : Rate → Rate → Bool
rate_leb (a, b) (c, d) = not (is_nan (a, b)) && not (is_nan (c, d)) && leb (a * d) (c * b)

abbrev pub rate_ltb : Rate → Rate → Bool
rate_ltb (a, b) (c, d) = not (is_nan (a, b)) && not (is_nan (c, d)) && ltb (a * d) (c * b)

-- `p` hundredths of a rate.
abbrev pub percent : ℕ → Rate → Rate
percent p (a, b) = (p * a, 100 * b)

-- `pct`
unfoldable pub pct : ℕ → ℕ → Rate
pct part whole = if whole == 0 then (0, 1) else (100 * part, whole)

-- `within`, with the tolerance in percent.
unfoldable pub within : Rate → Rate → ℕ → Bool
within v target tol =
    rate_leb (percent (100 - tol) target) v && rate_leb v (percent (100 + tol) target)
