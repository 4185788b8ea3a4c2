-- ===== src/Loadgen/Scenarios/Plain.antt =====
-- internal/loadgen/scenarios.go: the scripts of `runBaseline` and `runHotTenant`, up to the checks of
-- their results.
-- `Driver.Run` is here any function from the loads, the seconds and the state to the results and a
-- later state, and `stats` what a GET of the coordinator's counters is answered with.
pub mod Ends
use ratelimiter.Base.{ℕ, List, Option, none, some}
use ratelimiter.Coordinator.{Stats}
use ratelimiter.Loadgen.Kube.Objects.{Kube, worker_cpu_default}
use ratelimiter.Loadgen.Kube.Client.{Client, Error, Result, ok, err, other}
use ratelimiter.Loadgen.Kube.Lifecycle.{ensure_rate_limiter}
use ratelimiter.Loadgen.Report.{StatsResponse, coord_stats}
use ratelimiter.Loadgen.Scenarios.Loads.{Load}
use ratelimiter.Loadgen.Scenarios.Scaling.{Measured, bind}

-- What the checks of the baseline read: the coordinator's counters before and after, and the results.
pub record Scraped : Type 0 where
  pub before : Stats
  pub results : Measured
  pub after : Stats

-- `CoordStats` with the error that the script makes of its own.
unfoldable pub or_scraping : Option Stats → Result Stats
or_scraping none = err (other "scraping coordinator stats")
or_scraping (some s) = ok s

module _ (c : Client) (drive : List Load → ℕ → c.State → Measured × c.State)
    (stats : c.State → StatsResponse × c.State) (k : Kube) (loads : List Load) (secs : ℕ) where
  unfoldable pub scrape_stats : c.State → Result Stats × c.State
  unfolding or_scraping coord_stats
  scrape_stats s = let (answer, s') = stats s in (or_scraping (coord_stats answer), s')

  -- `runBaseline`
  unfoldable pub run_baseline : c.State → Option (Result Scraped × c.State)
  unfolding scrape_stats
  run_baseline s = bind (ensure_rate_limiter c k 2 worker_cpu_default s) (λ _ s.
      bind (some (scrape_stats (drive loads 3 s).1)) (λ before s.
        let (rs, s') = drive loads secs s in
        bind (some (scrape_stats s'))
          (λ after s. some (ok (record { before = before; results = rs; after = after }), s))))

  -- `runHotTenant`
  unfoldable pub run_hot_tenant : c.State → Option (Result Measured × c.State)
  run_hot_tenant s =
      bind (ensure_rate_limiter c k 2 worker_cpu_default s)
        (λ _ s. let (rs, s') = drive loads secs (drive loads 3 s).1 in some (ok rs, s'))
