-- ===== src/Loadgen/Scenarios/Plain/Ends.antt =====
-- How the scripts of `runBaseline` and `runHotTenant` end.
use ratelimiter.Base.{ℕ, ◌≡◌, refl, ap, arith, List, none, some}
use ratelimiter.Coordinator.{Stats}
use ratelimiter.Loadgen.Kube.Objects.{Kube, worker_cpu_default}
use ratelimiter.Loadgen.Kube.Client.{Client, Error, Result, ok, err, IsClocked, IsStoring}
use ratelimiter.Loadgen.Kube.Lifecycle.Setup.{Serving}
use ratelimiter.Loadgen.Kube.Lifecycle.Ensured.{ensure_rate_limiter_ends}
use ratelimiter.Loadgen.Report.{StatsResponse, stats_response, unreachable, coord_stats}
use ratelimiter.Loadgen.Scenarios.Loads.{Load}
use ratelimiter.Loadgen.Scenarios.Scaling.{Measured}
use ratelimiter.Loadgen.Scenarios.Scaling.Ends.{Gives, bind-Gives}
use ratelimiter.Loadgen.Scenarios.Plain.{
  Scraped, or_scraping, scrape_stats, run_baseline, run_hot_tenant,
}

module _ (c : Client) (drive : List Load → ℕ → c.State → Measured × c.State)
    (stats : c.State → StatsResponse × c.State) (k : Kube) (loads : List Load) (secs : ℕ) where
  -- The counters were read: the coordinator answered 200 with them.
  abbrev pub IsScraped : c.State → Stats → c.State → Type 0
  IsScraped s x s' = stats s ≡ (stats_response 200 (some x), s')

  pub data Baseline (s0 : c.State) : Result Scraped × c.State → Type 0 where
    failed : (e : Error) (s : c.State) → Baseline s0 (err e, s)
    scraped :
        (served s1 s2 last : c.State) (x : Scraped)
        → Serving c k 2 worker_cpu_default s0 (ok tt, served)
        → IsScraped (drive loads 3 served).1 x.before s1
        → drive loads secs s1 ≡ (x.results, s2)
        → IsScraped s2 x.after last
        → Baseline s0 (ok x, last)

  pub data HotTenant (s0 : c.State) : Result Measured × c.State → Type 0 where
    failed : (e : Error) (s : c.State) → HotTenant s0 (err e, s)
    measured :
        (served last : c.State) (rs : Measured)
        → Serving c k 2 worker_cpu_default s0 (ok tt, served)
        → drive loads secs (drive loads 3 served).1 ≡ (rs, last)
        → HotTenant s0 (ok rs, last)

  coord_stats_lem :
      (answer : StatsResponse) (x : Stats)
      → or_scraping (coord_stats answer) ≡ ok x
      → answer ≡ stats_response 200 (some x)
  unfolding coord_stats or_scraping
  coord_stats_lem unreachable x e = absurd (ground (arith, e))
  coord_stats_lem (stats_response status none) x e = absurd (ground (arith, e))
  coord_stats_lem (stats_response status (some y)) x e = ground (arith, e)

  scrape_stats-IsScraped :
      (s s' : c.State) (x : Stats)
      → scrape_stats c drive stats k loads secs s ≡ (ok x, s')
      → IsScraped s x s'
  unfolding scrape_stats
  scrape_stats-IsScraped s s' x e =
      let a : (stats s).0 ≡ stats_response 200 (some x) =
        coord_stats_lem (stats s).0 x (ap (λ o. o.0) e) in
      let b : (stats s).1 ≡ s' = ap (λ o. o.1) e in rw (← a, ← b) refl

  module _ (clocked : IsClocked c) (storing : IsStoring c) where
    run_baseline_ends :
        (s : c.State) → Gives (Baseline s) (run_baseline c drive stats k loads secs s)
    unfolding run_baseline
    run_baseline_ends s =
        let scrape = scrape_stats c drive stats k loads secs in
        let (out, e, serving) =
          ensure_rate_limiter_ends c clocked storing k 2 worker_cpu_default s in
        bind-Gives (Baseline s) _ _ (λ e s _. failed e s)
          (
            out,
            e,
            λ _ s1 o1.
                let warm = (drive loads 3 s1).1 in
                bind-Gives (Baseline s) _ _ (λ e s _. failed e s)
                  (
                    scrape warm,
                    refl,
                    λ before s2 o2.
                        let (rs, s3) = drive loads secs s2 in
                        bind-Gives (Baseline s) _ _ (λ e s _. failed e s)
                          (
                            scrape s3,
                            refl,
                            λ after s4 o4.
                                let x : Scraped = record {
                                  before = before;
                                  results = rs;
                                  after = after;
                                } in
                                (
                                  (ok x, s4),
                                  refl,
                                  scraped s1 s2 s3 s4 x (rw (← o1) serving)
                                      (scrape_stats-IsScraped warm s2 before o2) refl
                                      (scrape_stats-IsScraped s3 s4 after o4),
                                ),
                          ),
                  ),
          )

    run_hot_tenant_ends :
        (s : c.State) → Gives (HotTenant s) (run_hot_tenant c drive stats k loads secs s)
    unfolding run_hot_tenant
    run_hot_tenant_ends s =
        let (out, e, serving) =
          ensure_rate_limiter_ends c clocked storing k 2 worker_cpu_default s in
        bind-Gives (HotTenant s) _ _ (λ e s _. failed e s)
          (
            out,
            e,
            λ _ s1 o1.
                let (rs, s2) = drive loads secs (drive loads 3 s1).1 in
                ((ok rs, s2), refl, measured s1 s2 rs (rw (← o1) serving) refl),
          )

    -- The scripts of the baseline and of the hot tenant return, whatever the cluster answers and the
    -- driver measures. They give results only when the rate limiter had served with 2 workers before
    -- the warmup, and the baseline only when the coordinator answered 200 with its counters right
    -- before and right after the measurement.
    pub plain_runs_end :
        (s : c.State)
        → Gives (Baseline s) (run_baseline c drive stats k loads secs s)
          × Gives (HotTenant s) (run_hot_tenant c drive stats k loads secs s)
    plain_runs_end s = (run_baseline_ends s, run_hot_tenant_ends s)
