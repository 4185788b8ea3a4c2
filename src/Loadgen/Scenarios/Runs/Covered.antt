-- ===== src/Loadgen/Scenarios/Runs/Covered.antt =====
-- The checks of a scenario are found in what its script has measured.
use ratelimiter.Base.{
  ℕ, suc, subst, ◌≤◌, ◌≡◌, refl, ap, ◌∙◌, String, List, [], ◌∷◌, Option, none, some, false, arith,
  ltb, length, All,
}
use ratelimiter.Base.Dict.{lookup}
use ratelimiter.Config.{Config}
use ratelimiter.Coordinator.{Stats}
use ratelimiter.Loadgen.Driver.{TenantResult}
use ratelimiter.Loadgen.Driver.Rank.{percentile_found}
use ratelimiter.Loadgen.Kube.Objects.{Kube}
use ratelimiter.Loadgen.Kube.Client.{Client, Error, Result, ok, err}
use ratelimiter.Loadgen.Rates.{Rate}
use ratelimiter.Loadgen.Report.{StatsResponse}
use ratelimiter.Loadgen.Scenarios.Checks.{
  Checked, baseline_checks, hot_tenant_checks, throughput, scaling_checks, coordinator_kill_checks,
}
use ratelimiter.Loadgen.Scenarios.Loads.{Load}
use ratelimiter.Loadgen.Kube.Reached.{worker_decisions}
use ratelimiter.Loadgen.Scenarios.Plain.{Scraped}
use ratelimiter.Loadgen.Scenarios.Plain.Ends as Plain
use ratelimiter.Loadgen.Scenarios.Plain.Ends.{Baseline, scraped, HotTenant}
use ratelimiter.Loadgen.Scenarios.Scaling.{Measured, measure_phase}
use ratelimiter.Loadgen.Scenarios.Scaling.Ends as Script
use ratelimiter.Loadgen.Scenarios.Scaling.Ends.{
  Gives, bind-Gives, Phase, Phases, Scaling, scaled, gave_up, over, phase,
}

-- The driver has a result for the tenant of every load.
abbrev pub Covers : List Load → Measured → Type 0
Covers loads rs = All (λ l. (r : TenantResult) × (lookup l.tenant rs ≡ some r)) loads

pub baseline_checks_found :
    (cfg : Config) (rs : Measured) (secs : ℕ) (before after : Option Stats) {a b : TenantResult}
    → lookup "tenant-a" rs ≡ some a
    → lookup "tenant-b" rs ≡ some b
    → (checks : Checked) × (baseline_checks cfg rs secs before after ≡ some checks)
unfolding baseline_checks
baseline_checks_found cfg rs secs before after ea eb = rw (ea, eb) (_, refl)

pub hot_tenant_checks_found :
    (cfg : Config) (rs : Measured) (secs cap : ℕ) {a b c : TenantResult}
    → lookup "tenant-a" rs ≡ some a
    → lookup "tenant-b" rs ≡ some b
    → lookup "tenant-c" rs ≡ some c
    → (checks : Checked) × (hot_tenant_checks cfg rs secs cap ≡ some checks)
unfolding hot_tenant_checks
hot_tenant_checks_found cfg rs secs cap {a} {b} {c} ea eb ec =
    let (p, ep) = percentile_found b 99 (omega arith) in
    let (q, eq) = percentile_found c 99 (omega arith) in rw (ea, eb, ec, ep, eq) (_, refl)

-- One phase of the scaling scenario that has a result for its tenant.
abbrev pub HasHi : Measured → Type 0
HasHi rs = (r : TenantResult) × (lookup "tenant-hi" rs ≡ some r)

pub scaling_checks_found :
    (cfg : Config) (one two four : Measured) (offered : Rate) (secs : ℕ)
    → HasHi one
    → HasHi two
    → HasHi four
    → (checks : Checked) × (scaling_checks cfg one two four offered secs ≡ some checks)
unfolding scaling_checks throughput
scaling_checks_found cfg one two four offered secs (r, e) (r', e') (r'', e'') =
    rw (e, e', e'') (_, refl)

pub coordinator_kill_checks_found :
    (cfg : Config) (rs : Measured) (secs kill_at restore_at : ℕ) (offered : Rate)
    → 11 ≤ secs
    → (checks : Checked) × (coordinator_kill_checks cfg rs secs kill_at restore_at offered
        ≡ some checks)
unfolding coordinator_kill_checks
coordinator_kill_checks_found cfg rs secs kill_at restore_at offered h =
    let long : ltb secs 11 ≡ false = ground (arith, h) in rw long (_, refl)

-- How a scenario ends: with an error, with checks, or with a panic if it is `short`.
pub data Gave {S : Type 0} (short : Type 0) : Result (Option Checked) × S → Type 0 where
  failed : (e : Error) (s : S) → Gave short (err e, s)
  checked : (checks : Checked) (s : S) → Gave short (ok (some checks), s)
  panicked : (s : S) → short → Gave short (ok none, s)

-- Checks that are found are what the scenario ends with.
pub checks-Gave :
    {S : Type 0} (short : Type 0) (o : Option Checked) (s : S)
    → (checks : Checked) × (o ≡ some checks)
    → Gives (Gave short) (some (ok o, s))
checks-Gave short o s (checks, e) = ((ok o, s), refl, rw e (checked checks s))

module _ (c : Client) (drive : List Load → ℕ → c.State → Measured × c.State)
    (fits : (loads : List Load) (secs : ℕ) (s : c.State) → Covers loads (drive loads secs s).0)
    (k : Kube) (url : String) (loads : List Load) (secs : ℕ) where
  driven : (s1 s2 : c.State) (rs : Measured) → drive loads secs s1 ≡ (rs, s2) → Covers loads rs
  driven s1 s2 rs e = subst (λ x. Covers loads x) (ap (λ o. o.0) e) (fits loads secs s1)

  pub Baseline-Covers :
      {s0 : c.State} (stats : c.State → StatsResponse × c.State) (out : Result Scraped × c.State)
      → Baseline c drive stats k loads secs s0 out
      → (x : Scraped) (s : c.State) → out ≡ (ok x, s)
      → Covers loads x.results
  Baseline-Covers stats _ (Plain.failed e s') x s o = absurd (ground (arith, ap (λ o. o.0) o))
  Baseline-Covers stats _ (scraped served s1 s2 last x' _ _ d _) x s o =
      let same : x' ≡ x = ground (arith, ap (λ o. o.0) o) in rw (← same) (driven s1 s2 x'.results d)

  pub HotTenant-Covers :
      {s0 : c.State} (stats : c.State → StatsResponse × c.State) (out : Result Measured × c.State)
      → HotTenant c drive stats k loads secs s0 out
      → (rs : Measured) (s : c.State) → out ≡ (ok rs, s)
      → Covers loads rs
  HotTenant-Covers stats _ (Plain.failed e s') rs s o = absurd (ground (arith, ap (λ o. o.0) o))
  HotTenant-Covers stats _ (Plain.measured served last rs' _ d) rs s o =
      let same : rs' ≡ rs = ground (arith, ap (λ o. o.0) o) in
      rw (← same) (driven (drive loads 3 served).1 last rs' d)

  Phase-Covers :
      {s0 : c.State} (n : ℕ) (out : Result Measured × c.State)
      → Phase c drive k url loads secs n s0 out
      → (rs : Measured) (s : c.State) → out ≡ (ok rs, s)
      → Covers loads rs
  unfolding measure_phase
  Phase-Covers n _ (Script.not_served e s' _) rs s o = absurd (ground (arith, ap (λ o. o.0) o))
  Phase-Covers n _ (Script.not_reached e served s' _ _) rs s o =
      absurd (ground (arith, ap (λ o. o.0) o))
  Phase-Covers n _ (Script.measured served reached _ _ _ rs' s' m) rs s o =
      let before : c.State = (worker_decisions c (drive loads 3 reached).1).1 in
      subst (λ x. Covers loads x) (ap (λ o. o.0) m ∙ ground (arith, ap (λ o. o.0) o))
        (fits loads secs before)

  -- The results of phases, one for each.
  Phases-Covers :
      {s0 : c.State} (ns : List ℕ) (out : Result (List Measured) × c.State)
      → Phases c drive k url loads secs ns s0 out
      → (ps : List Measured) (s : c.State) → out ≡ (ok ps, s)
      → (length ps ≡ length ns) × All (Covers loads) ps
  Phases-Covers _ _ (gave_up n ns _ e s' _) ps s o = absurd (ground (arith, ap (λ o. o.0) o))
  Phases-Covers _ _ (Script.gave_up_later n ns rs _ s1 e s' _ _) ps s o =
      absurd (ground (arith, ap (λ o. o.0) o))
  Phases-Covers _ _ (over s') ps s o =
      let same : [] ≡ ps = ground (arith, ap (λ o. o.0) o) in rw (← same) (refl, tt)
  Phases-Covers _ _ (phase n ns rs rest _ s1 s2 first others) ps s o =
      let same : rs ∷ rest ≡ ps = ground (arith, ap (λ o. o.0) o) in
      let (count, all) = Phases-Covers ns (ok rest, s2) others rest s2 refl in
      rw (← same) (ap suc count, (Phase-Covers n (ok rs, s1) first rs s1 refl, all))

  pub Scaling-Covers :
      {s0 : c.State} (out : Result (List Measured) × c.State)
      → Scaling c drive k url loads secs s0 out
      → (ps : List Measured) (s : c.State) → out ≡ (ok ps, s)
      → (length ps ≡ 3) × All (Covers loads) ps
  Scaling-Covers _ (Script.failed e s' _) ps s o = absurd (ground (arith, ap (λ o. o.0) o))
  Scaling-Covers _ (Script.not_scaled rs e s1 s' _ _) ps s o =
      absurd (ground (arith, ap (λ o. o.0) o))
  Scaling-Covers _ (scaled ps' s1 s2 phases _) ps s o =
      let same : ps' ≡ ps = ground (arith, ap (λ o. o.0) o) in
      rw (← same) (Phases-Covers (1 ∷ 2 ∷ 4 ∷ []) (ok ps', s1) phases ps' s1 refl)
