-- ===== src/Loadgen/Scenarios/Checks/Idle.antt =====
-- The checks of the scaling scenario when nothing was decided.
use ratelimiter.Base.{
  ℕ, ◌+◌, ◌*◌, ◌<◌, ◌≡◌, refl, ap, ◌∙◌, Bool-cases, inl, inr, arith, String, List, [], ◌∷◌, some,
  true, sum_by, All,
}
use ratelimiter.Base.Dict.{lookup}
use ratelimiter.Config.{Config}
use ratelimiter.Loadgen.Driver.{TenantResult, no_result}
use ratelimiter.Loadgen.Driver.Counted.{is_admitted, is_rejected}
use ratelimiter.Loadgen.Driver.Books.{Recorded, record_all, records_balance}
use ratelimiter.Loadgen.Rates.{Rate, rate_leb, percent}
use ratelimiter.Loadgen.Scenarios.{invariant_check}
use ratelimiter.Loadgen.Scenarios.Assertion.{Exceeds, invariant_check_lem}
use ratelimiter.Loadgen.Scenarios.Checks.{Checked, throughput, scaling_checks}

-- A history in which no request was answered 200 or 429.
pub record IsUndecided (xs : List Recorded) : Type 0 where
  pub admitted : sum_by (λ x. is_admitted x.response) xs ≡ 0
  pub rejected : sum_by (λ x. is_rejected x.response) xs ≡ 0

no_tokens :
    (xs : List Recorded)
    → sum_by (λ x. is_admitted x.response) xs ≡ 0
    → sum_by (λ x. x.cost * is_admitted x.response) xs ≡ 0
no_tokens [] h = refl
no_tokens (x ∷ xs) h =
    let none_here : is_admitted x.response ≡ 0 = omega (arith, h) in
    let free : x.cost * is_admitted x.response ≡ 0 = rw none_here (omega arith) in
    omega (arith, free, no_tokens xs (omega (arith, h)))

-- The result of such a history.
abbrev pub measured : List Recorded → List (String × TenantResult)
measured xs = ("tenant-hi", record_all no_result xs) ∷ []

only : {A : Type 0} (name : String) (a b : A) → lookup name (("tenant-hi", a) ∷ []) ≡ some b → b ≡ a
unfolding lookup
only name a b e = ground (arith, e)

never-Exceeds :
    {cfg : Config} {dur workers restarts : ℕ} (xs : List Recorded)
    → IsUndecided xs
    → ¬ Exceeds cfg (measured xs) dur workers restarts
never-Exceeds xs h x =
    let same : x.result ≡ record_all no_result xs =
      only x.name (record_all no_result xs) x.result x.measured in
    let free : x.result.admitted_tokens ≡ 0 =
      ap (λ (r : TenantResult). r.admitted_tokens) same
      ∙ (records_balance xs).1
      ∙ no_tokens xs h.admitted in
    omega (arith, x.above, free)

idle_within :
    (cfg : Config) (xs : List Recorded) (dur workers restarts : ℕ)
    → IsUndecided xs
    → (invariant_check cfg (measured xs) dur workers restarts).0 ≡ true
idle_within cfg xs dur workers restarts h =
    elim (Bool-cases (invariant_check cfg (measured xs) dur workers restarts).0) [
      | inl e ↦ e
      | inr e ↦
          absurd
            (never-Exceeds xs h ((invariant_check_lem cfg (measured xs) dur workers restarts).0 e))
    ]

no_throughput :
    (xs : List Recorded) (secs : ℕ)
    → IsUndecided xs
    → throughput (measured xs) secs ≡ some (0, secs)
unfolding throughput lookup
no_throughput xs secs h =
    let b = records_balance xs in
    let nothing : (record_all no_result xs).admitted + (record_all no_result xs).rejected ≡ 0 =
      omega (arith, b.0, b.2, h.admitted, h.rejected) in
    rw nothing refl

-- The scaling scenario passes if no request was decided in any of its phases, which lasted longer than
-- 0 seconds, at whatever finite rate it offered that is not negative: all its checks hold of throughputs that
-- are 0.
pub scaling_passes_idle :
    (cfg : Config) (one two four : List Recorded) (offered : Rate) (secs : ℕ)
    → 0 < secs
    → 0 < offered.1
    → IsUndecided one
    → IsUndecided two
    → IsUndecided four
    → (checks : Checked) × (scaling_checks cfg
          (measured one)
          (measured two)
          (measured four)
          offered
          secs
        ≡ some checks)
      × All (λ (name, ok). ok ≡ true) checks
unfolding scaling_checks
scaling_passes_idle cfg one two four offered secs lasts real h1 h2 h4 =
    let saturated : rate_leb (0, secs) (percent 90 offered) ≡ true = ground (arith, lasts, real) in
    let beats : (p : ℕ) → rate_leb (percent p (0, secs)) (0, secs) ≡ true =
      λ p. ground (arith, lasts) in
    rw (no_throughput one secs h1, no_throughput two secs h2, no_throughput four secs h4)
      (
        _,
        refl,
        (
          saturated,
          (
            beats 130,
            (
              beats 200,
              (
                idle_within cfg one _ 1 0 h1,
                (idle_within cfg two _ 2 0 h2, (idle_within cfg four _ 4 0 h4, tt)),
              ),
            ),
          ),
        ),
      )
