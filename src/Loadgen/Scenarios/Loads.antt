-- ===== src/Loadgen/Scenarios/Loads.antt =====
-- internal/loadgen/scenarios.go: what the scenarios offer to each tenant.
-- A rate is an exact fraction of requests per second. The overrides of the query and
-- `strconv.ParseFloat` are parameters; an override that is negative or not a number is left out.
pub mod Advertised
use ratelimiter.Base.{ℕ, zero, suc, String, List, [], ◌∷◌, Option, ◌≡◌, refl, map}
use ratelimiter.Config.{Config}
use ratelimiter.Loadgen.Rates.{Rate, rate_add, percent}
use ratelimiter.Loadgen.Scenarios.{ov}
use ratelimiter.Loadgen.Scenarios.Checks.{limit_of}

-- A `TenantLoad` with its rate as a fraction; a cost of 0 is one that is not set.
pub record Load : Type 0 where
  pub tenant : String
  pub rate : Rate
  pub concurrency : ℕ
  pub cost : ℕ

module _ (get : String → String) (parse_float : String → Option Rate) (cfg : Config) where
  -- `env.ov(key, p hundredths of the limit of a tenant)`
  abbrev pub rate_of : String → ℕ → String → Rate
  rate_of key p tenant = ov parse_float (get key) (percent p (limit_of cfg tenant))

  -- The loads of `runBaseline`.
  unfoldable pub baseline_loads : List Load
  unfolding ov
  baseline_loads =
      record {
        tenant = "tenant-a";
        rate = rate_of "rate_a" 120 "tenant-a";
        concurrency = 24;
        cost = 1;
      }
      ∷ record {
        tenant = "tenant-a";
        rate = rate_of "rate_a5" 16 "tenant-a";
        concurrency = 8;
        cost = 5;
      }
      ∷ record {
        tenant = "tenant-b";
        rate = rate_of "rate_b" 50 "tenant-b";
        concurrency = 8;
        cost = 0;
      }
      ∷ []

  -- The loads of `runHotTenant`.
  unfoldable pub hot_tenant_loads : List Load
  unfolding ov
  hot_tenant_loads =
      record {
        tenant = "tenant-a";
        rate = rate_of "rate_a" 2000 "tenant-a";
        concurrency = 128;
        cost = 0;
      }
      ∷ record {
        tenant = "tenant-b";
        rate = rate_of "rate_b" 60 "tenant-b";
        concurrency = 8;
        cost = 0;
      }
      ∷ record {
        tenant = "tenant-c";
        rate = rate_of "rate_c" 60 "tenant-c";
        concurrency = 4;
        cost = 0;
      }
      ∷ []

  -- `steadyLoads`
  unfoldable pub steady_loads : List Load
  unfolding ov
  steady_loads =
      record {
        tenant = "tenant-a";
        rate = rate_of "rate_a" 80 "tenant-a";
        concurrency = 16;
        cost = 0;
      }
      ∷ record {
        tenant = "tenant-b";
        rate = rate_of "rate_b" 80 "tenant-b";
        concurrency = 8;
        cost = 0;
      }
      ∷ record {
        tenant = "tenant-c";
        rate = rate_of "rate_c" 80 "tenant-c";
        concurrency = 4;
        cost = 0;
      }
      ∷ []

-- The loop of `runCoordinatorKill` that adds up what is offered.
unfoldable pub offered_of : List Load → Rate
offered_of [] = (0, 1)
offered_of (l ∷ ls) = rate_add l.rate (offered_of ls)
