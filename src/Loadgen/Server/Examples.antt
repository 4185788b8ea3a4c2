-- ===== src/Loadgen/Server/Examples.antt =====
-- A run of the baseline through the handler, at the simulated cluster.
use ratelimiter.Base.{ℕ, ◌*◌, ◌+◌, List, [], ◌∷◌, Option, none, some, map, true}
use ratelimiter.Base.Int.{pos}
use ratelimiter.Config.{Config}
use ratelimiter.Loadgen.Driver.{no_result}
use ratelimiter.Loadgen.Kube.Client.{ok}
use ratelimiter.Loadgen.Kube.Poll.{second}
use ratelimiter.Loadgen.Kube.Simulated.{Sim}
use ratelimiter.Loadgen.Report.{stats_response}
use ratelimiter.Loadgen.Scenarios.Hooks.{Fault}
use ratelimiter.Loadgen.Scenarios.Loads.{Load}
use ratelimiter.Loadgen.Scenarios.Scaling.{Measured}
use ratelimiter.Loadgen.Server.{RunRequest, auth_token}
use ratelimiter.Loadgen.Server.Handler.{RunEnv}

-- A driver that is answered nothing: the clock moves on, and each tenant has a result.
abbrev idle_drive : (ℕ → Option Fault) → List Load → ℕ → Sim → Measured × Sim
idle_drive hook loads secs s =
    (map (λ l. (l.tenant, no_result)) loads, record s { clock = s.clock + secs * second })

abbrev cfg : Config
cfg = record {
  lease = record { size = pos 100; duration_ms = pos 1_000 };
  tenants = ("tenant-a", pos 200_000) ∷ ("tenant-b", pos 100_000) ∷ [];
}

abbrev env : RunEnv Sim
env = record {
  drive = idle_drive;
  stats = λ s. (stats_response 200 (some (record { started_ms = 7; tenants = [] })), s);
  kube = record { ns = "ratelimiter"; image = "ratelim:1" };
  url = "http://ratelim-workers:8080";
  get = λ key. "";
  parse_float = λ text. none;
  config_map = λ s. (ok "lease: ...", s);
  writable = true;
  unmarshal = λ raw. some cfg;
  error_text = λ e. "error";
  load_text = λ e. "bad configuration";
  file_text = "no space left";
  detail = λ name holds. "";
}

abbrev fresh : Sim
fresh = record { clock = 5; deployments = []; pods = [] }

abbrev ask : RunRequest
ask = record { authorization = ""; token = auth_token; scenario = "baseline" }
