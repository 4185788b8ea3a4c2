-- ===== src/Loadgen/Scenarios/Loads/Advertised.antt =====
-- internal/loadgen/scenarios.go: the loads of the scenarios against their descriptions.
use ratelimiter.Base.{
  ℕ, ◌+◌, ◌*◌, ◌≡◌, refl, String, str_eq, List, [], ◌∷◌, Option, arith, max, if◌then◌else◌,
}
use ratelimiter.Config.{Config}
use ratelimiter.Loadgen.Rates.{Rate, rate_add, percent}
use ratelimiter.Loadgen.Scenarios.{ov}
use ratelimiter.Loadgen.Scenarios.Checks.{limit_of}
use ratelimiter.Loadgen.Scenarios.Loads.{
  Load, rate_of, baseline_loads, hot_tenant_loads, steady_loads,
}

-- The tokens per second that a list of loads offers for a tenant, where a request costs 1 if its cost
-- is not set.
abbrev pub tokens_for : String → List Load → Rate
tokens_for name [] = (0, 1)
tokens_for name (l ∷ ls) =
    let rest = tokens_for name ls in
    if str_eq l.tenant name then rate_add (max 1 l.cost * l.rate.0, l.rate.1) rest else rest

-- A rate that is `p` hundredths of another.
abbrev pub IsShare : ℕ → Rate → Rate → Type 0
IsShare p (a, b) (c, d) = c * (100 * b) ≡ p * a * d

rate_of_plain :
    (get : String → String) (parse_float : String → Option Rate) (cfg : Config) (key : String)
    (p : ℕ) (tenant : String)
    → get key ≡ ""
    → rate_of get parse_float cfg key p tenant ≡ percent p (limit_of cfg tenant)
unfolding ov
rate_of_plain get parse_float cfg key p tenant e = rw e refl

percent-IsShare :
    (p : ℕ) (r : Rate) → IsShare p r (rate_add (1 * (percent p r).0, (percent p r).1) (0, 1))
percent-IsShare p (a, b) = grind arith

rate_add-IsShare :
    (p q : ℕ) (r : Rate)
    → IsShare (p + 5 * q) r (
        rate_add
          (1 * (percent p r).0, (percent p r).1)
          (rate_add (5 * (percent q r).0, (percent q r).1) (0, 1)))
rate_add-IsShare p q (a, b) = grind arith

-- Without overrides the scenarios offer what they describe: in the baseline twice the limit of
-- tenant-a in tokens, of its two loads together, and half of the limit of tenant-b; with a hot tenant
-- twenty times the limit of tenant-a and 0.6 times those of tenant-b and tenant-c; and in both
-- scenarios with a kill 0.8 times the limit of each tenant.
pub loads_offer :
    (get : String → String) (parse_float : String → Option Rate) (cfg : Config)
    → ((key : String) → get key ≡ "")
    → let baseline = baseline_loads get parse_float cfg in
      let hot = hot_tenant_loads get parse_float cfg in
      let steady = steady_loads get parse_float cfg in
      IsShare 200 (limit_of cfg "tenant-a") (tokens_for "tenant-a" baseline)
      × IsShare 50 (limit_of cfg "tenant-b") (tokens_for "tenant-b" baseline)
      × IsShare 2000 (limit_of cfg "tenant-a") (tokens_for "tenant-a" hot)
      × IsShare 60 (limit_of cfg "tenant-b") (tokens_for "tenant-b" hot)
      × IsShare 60 (limit_of cfg "tenant-c") (tokens_for "tenant-c" hot)
      × IsShare 80 (limit_of cfg "tenant-a") (tokens_for "tenant-a" steady)
      × IsShare 80 (limit_of cfg "tenant-b") (tokens_for "tenant-b" steady)
      × IsShare 80 (limit_of cfg "tenant-c") (tokens_for "tenant-c" steady)
unfolding baseline_loads hot_tenant_loads steady_loads
loads_offer get parse_float cfg plain =
    let a = limit_of cfg "tenant-a" in
    let b = limit_of cfg "tenant-b" in
    let c = limit_of cfg "tenant-c" in
    let set = rate_of_plain get parse_float cfg in
    rw
      (
        set "rate_a" 120 "tenant-a" (plain "rate_a"),
        set "rate_a5" 16 "tenant-a" (plain "rate_a5"),
        set "rate_b" 50 "tenant-b" (plain "rate_b"),
        set "rate_a" 2000 "tenant-a" (plain "rate_a"),
        set "rate_b" 60 "tenant-b" (plain "rate_b"),
        set "rate_c" 60 "tenant-c" (plain "rate_c"),
        set "rate_a" 80 "tenant-a" (plain "rate_a"),
        set "rate_b" 80 "tenant-b" (plain "rate_b"),
        set "rate_c" 80 "tenant-c" (plain "rate_c"),
      )
      (
        rate_add-IsShare 120 16 a,
        percent-IsShare 50 b,
        percent-IsShare 2000 a,
        percent-IsShare 60 b,
        percent-IsShare 60 c,
        percent-IsShare 80 a,
        percent-IsShare 80 b,
        percent-IsShare 80 c,
      )
