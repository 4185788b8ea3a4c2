-- ===== src/Loadgen/Server.antt =====
-- internal/loadgen/server.go: the control server that runs one scenario at a time.
-- `net/http` is outside the repository: a request is the value of its Authorization header and
-- those of the parameters `token` and `scenario`, empty if they are missing. What the cluster and the
-- scenario answer is a parameter of the run: `RunOutcome`.
pub mod Exclusion
pub mod Handler
pub mod Listed
mod Examples
use Prim.Native.String.{◌++◌ as str_append}
use ratelimiter.Base.{
  ℕ, zero, suc, ◌+◌, ◌-◌, String, List, [], ◌∷◌, ◌++◌, Option, none, some, Bool, true, false, ◌||◌,
  not, ◌≡◌, str_eq, if◌then◌else◌,
}
use ratelimiter.Loadgen.Report.{Check, join, render_checks}
use ratelimiter.Loadgen.Scenarios.{scenarios, find_scenario}

-- `AuthToken`
abbrev pub auth_token : String
auth_token = "rldemo-c7f31a92d4e85b06"

pub record RunRequest : Type 0 where
  pub authorization : String
  pub token : String
  pub scenario : String

-- `authorized`
unfoldable pub authorized : RunRequest → Bool
authorized r =
    if str_eq r.authorization (str_append "Bearer " auth_token)
    then true
    else str_eq r.token auth_token

-- How `handleRun` goes on: a refusal with its status and text, or the run of a scenario.
pub data Admission : Type 0 where
  refused : (status : ℕ) → (text : String) → Admission
  runs : (scenario : String) → Admission

-- `handleRun` up to `TryLock`, on the state of the mutex.
unfoldable pub start_run : Bool → RunRequest → Bool × Admission
unfolding authorized find_scenario
start_run locked r =
    if not (authorized r)
    then (locked, refused 401 "missing or wrong bearer token")
    else elim (find_scenario r.scenario scenarios) [
      | none ↦ (locked, refused 400 (str_append "unknown scenario; one of: " (join ", " scenarios)))
      | some name ↦
          if locked
          then (locked, refused 409 "another scenario is already running; try again shortly")
          else (true, runs name)
    ]

-- What came of the run: the configuration could not be read, the scenario returned an error, or its
-- checks.
pub data RunOutcome : Type 0 where
  no_config : (err : String) → RunOutcome
  run_failed : (err : String) → RunOutcome
  checked : List Check → RunOutcome

-- The rest of `handleRun`: the lines behind the scenario's own, and the mutex unlocked by the
-- deferred call, whatever the outcome.
unfoldable pub finish_run : RunOutcome → Bool × List String
unfolding render_checks
finish_run (no_config err) =
    (false, str_append "ERROR: reading ratelim-config ConfigMap: " err ∷ "FAIL: setup error" ∷ [])
finish_run (run_failed err) = (false, "" ∷ str_append "ERROR: " err ∷ "FAIL: scenario error" ∷ [])
finish_run (checked checks) = (false, "" ∷ (render_checks checks).0)

-- The server: its mutex, and the runs that are in progress.
pub record RunServer : Type 0 where
  pub locked : Bool
  pub running : List String

-- Requests come and runs end in any order.
pub data RunStep (s : RunServer) : RunServer → Type 0 where
  refuses :
      (r : RunRequest) (status : ℕ) (text : String)
      → (start_run s.locked r).1 ≡ refused status text
      → RunStep s (record s { locked = (start_run s.locked r).0 })
  accepts :
      (r : RunRequest) (name : String)
      → (start_run s.locked r).1 ≡ runs name
      → RunStep s (record { locked = (start_run s.locked r).0; running = name ∷ s.running })
  ends :
      (before after : List String) (name : String) (outcome : RunOutcome)
      → s.running ≡ before ++ name ∷ after
      → RunStep s (record { locked = (finish_run outcome).0; running = before ++ after })

pub data RunReach : RunServer → Type 0 where
  idle : RunReach (record { locked = false; running = [] })
  later : {s s' : RunServer} → RunReach s → RunStep s s' → RunReach s'
