-- ===== src/Loadgen/Server/Handler/Answers.antt =====
-- How `handleRun` answers.
use ratelimiter.Base.{ℕ, ◌≡◌, String, List, [], ◌∷◌, Option, some, map, Bool, false}
use ratelimiter.Config.{Config, loaded, load}
use ratelimiter.Config
use ratelimiter.Loadgen.Kube.Client.{Client}
use ratelimiter.Loadgen.Report.Verdict.{verdict}
use ratelimiter.Loadgen.Scenarios.Checks.{Checked}
use ratelimiter.Loadgen.Scenarios.Hooks.{Fault}
use ratelimiter.Loadgen.Scenarios.Loads.{Load}
use ratelimiter.Loadgen.Scenarios.Runs.Covered.{Covers}
use ratelimiter.Loadgen.Scenarios.Runs.Covered
use ratelimiter.Loadgen.Server.{RunRequest, refused, runs, start_run}
use ratelimiter.Loadgen.Server.Handler.{RunAnswer, refusal, page, cut_off, RunEnv, to_check}

abbrev pub last_line : List String → String
last_line [] = ""
last_line (l ∷ []) = l
last_line (l ∷ m ∷ ls) = last_line (m ∷ ls)

module _ (c : Client) (env : RunEnv c.State) where
  -- How an admitted run ends: always with the mutex free.
  pub data Ran (name : String) : Bool × RunAnswer × c.State → Type 0 where
    no_setup :
        (lines : List String) (s : c.State)
        → last_line lines ≡ "FAIL: setup error"
        → Ran name (false, page lines, s)
    no_result :
        (lines : List String) (s : c.State)
        → last_line lines ≡ "FAIL: scenario error"
        → Ran name (false, page lines, s)
    judged :
        (cfg : Config) (raw : String) (checks : Checked) (lines : List String) (s : c.State)
        → load env.unmarshal (some raw) ≡ loaded cfg
        → last_line lines ≡ verdict (map (to_check c env) checks)
        → Ran name (false, page lines, s)
    broken_off : (s : c.State) → name ≡ "coordinator-kill" → Ran name (false, cut_off, s)

  -- How a request to `handleRun` is answered, on the state of the mutex.
  pub data Served (locked : Bool) (r : RunRequest) : Bool × RunAnswer × c.State → Type 0 where
    turned_away :
        (status : ℕ) (text : String) (s : c.State)
        → (start_run locked r).1 ≡ refused status text
        → Served locked r (locked, refusal status text, s)
    served :
        (name : String) (out : Bool × RunAnswer × c.State)
        → locked ≡ false
        → (start_run locked r).1 ≡ runs name
        → Ran name out
        → Served locked r out

  -- A driver that has a result for the tenant of every load.
  abbrev pub IsFitting : Type 0
  IsFitting =
      (hook : ℕ → Option Fault) (loads : List Load) (secs : ℕ) (s : c.State)
      → Covers loads (env.drive hook loads secs s).0
