-- ===== src/Loadgen/Server/Handler.antt =====
-- internal/loadgen/server.go, `handleRun` from the request to the last line, and
-- internal/loadgen/kube.go, `LoadConfig`.
-- The parameters are those of the scenarios, what a GET of the ConfigMap gives for its entry
-- config.yaml (empty if there is none), whether a temporary file can be written (what is written is
-- what `config.Load` then reads), the YAML decoder, and the texts that `%v` and `Sprintf` make of
-- errors and of the numbers of a check.
pub mod Answers
use ratelimiter.Base.{
  ℕ, String, List, [], ◌∷◌, Option, none, some, map, Bool, true, false, ◌⊎◌, inl, inr,
}
use ratelimiter.Config.{Config, LoadError, LoadResult, loaded, load}
use ratelimiter.Config
use ratelimiter.Loadgen.Kube.Objects.{Kube}
use ratelimiter.Loadgen.Kube.Client.{Client, Error, Result, ok, err}
use ratelimiter.Loadgen.Rates.{Rate}
use ratelimiter.Loadgen.Report.{Check, StatsResponse}
use ratelimiter.Loadgen.Scenarios.Checks.{Checked}
use ratelimiter.Loadgen.Scenarios.Hooks.{Fault}
use ratelimiter.Loadgen.Scenarios.Loads.{Load}
use ratelimiter.Loadgen.Scenarios.Scaling.{Measured}
use ratelimiter.Loadgen.Scenarios.Runs.{run_scenario}
use ratelimiter.Loadgen.Server.{
  RunRequest, Admission, refused, runs, start_run, RunOutcome, no_config, run_failed, checked,
  finish_run,
}

-- What the client is sent: a refusal with its status, a page by the lines behind those of the
-- scenario, or a page that a panic cuts off.
pub data RunAnswer : Type 0 where
  refusal : (status : ℕ) → (text : String) → RunAnswer
  page : List String → RunAnswer
  cut_off : RunAnswer

-- What the environment of a run answers.
pub record RunEnv (S : Type 0) : Type 0 where
  pub drive : (ℕ → Option Fault) → List Load → ℕ → S → Measured × S
  pub stats : S → StatsResponse × S
  pub kube : Kube
  pub url : String
  pub get : String → String
  pub parse_float : String → Option Rate
  pub config_map : S → Result String × S
  pub writable : Bool
  pub unmarshal : String → Option Config
  pub error_text : Error → String
  pub load_text : LoadError → String
  pub file_text : String
  pub detail : String → Bool → String

module _ (c : Client) (env : RunEnv c.State) where
  -- `LoadConfig`, or the text of its error.
  unfoldable pub load_config : Result String → Config ⊎ String
  unfolding load
  load_config (err e) = inr (env.error_text e)
  load_config (ok raw) = elim env.writable [
    | false ↦ inr env.file_text
    | true ↦ elim (load env.unmarshal (some raw)) [
      | loaded cfg ↦ inl cfg
      | Config.failed e ↦ inr (env.load_text e)
    ]
  ]

  abbrev pub to_check : String × Bool → Check
  to_check (name, holds) = record { name = name; ok = holds; detail = env.detail name holds }

  -- The end of a run with an outcome: the mutex, and the page.
  abbrev pub ends_with : RunOutcome → c.State → Option (Bool × RunAnswer × c.State)
  ends_with outcome s = let (locked, lines) = finish_run outcome in some (locked, page lines, s)

  -- What came of the scenario; a panic runs the deferred calls too.
  unfoldable pub conclude :
      Option (Result (Option Checked) × c.State) → Option (Bool × RunAnswer × c.State)
  unfolding finish_run
  conclude none = none
  conclude (some (err e, s)) = ends_with (run_failed (env.error_text e)) s
  conclude (some (ok none, s)) = some (false, cut_off, s)
  conclude (some (ok (some checks), s)) = ends_with (checked (map to_check checks)) s

  -- An admitted run, from `LoadConfig` on.
  unfoldable pub run_admitted : String → c.State → Option (Bool × RunAnswer × c.State)
  unfolding load_config conclude run_scenario finish_run
  run_admitted name s =
      let (raw, s') = env.config_map s in
      elim (load_config raw) [
        | inr text ↦ ends_with (no_config text) s'
        | inl cfg ↦ conclude (
            run_scenario c env.drive env.stats env.kube env.url env.get env.parse_float cfg name s')
      ]

  -- `handleRun`, on the state of the mutex.
  unfoldable pub handle_run : Bool → RunRequest → c.State → Option (Bool × RunAnswer × c.State)
  unfolding start_run run_admitted
  handle_run locked r s =
      let (locked', admission) = start_run locked r in
      elim admission [
        | refused status text ↦ some (locked', refusal status text, s)
        | runs name ↦ run_admitted name s
      ]
