-- ===== src/Loadgen/Server/Exclusion.antt =====
-- One scenario at a time.
use ratelimiter.Base.{
  ℕ, ◌≡◌, refl, sym, ◌∙◌, ◌⊎◌, inl, inr, arith, String, List, [], ◌∷◌, ◌++◌, Bool, true, false,
  some,
}
use ratelimiter.Loadgen.Scenarios.{scenarios, find_scenario}
use ratelimiter.Loadgen.Server.{
  RunRequest, authorized, refused, runs, start_run, RunOutcome, no_config, run_failed, checked,
  finish_run, RunServer, RunStep, refuses, accepts, ends, RunReach, idle, later,
}

-- The mutex is held exactly while one run is in progress.
pub data IsExclusive : RunServer → Type 0 where
  free : {s : RunServer} → s.locked ≡ false → s.running ≡ [] → IsExclusive s
  held : {s : RunServer} (name : String) → s.locked ≡ true → s.running ≡ name ∷ [] → IsExclusive s

pub refused_keeps :
    (locked : Bool) (r : RunRequest) {status : ℕ} {text : String}
    → (start_run locked r).1 ≡ refused status text
    → (start_run locked r).0 ≡ locked
unfolding start_run
refused_keeps locked r e = ground (arith, e)

pub runs_locks :
    (locked : Bool) (r : RunRequest) {name : String}
    → (start_run locked r).1 ≡ runs name
    → (locked ≡ false) × ((start_run locked r).0 ≡ true)
unfolding start_run
runs_locks locked r e = ground (arith, e)

finish_unlocks : (outcome : RunOutcome) → (finish_run outcome).0 ≡ false
unfolding finish_run
finish_unlocks (no_config err) = refl
finish_unlocks (run_failed err) = refl
finish_unlocks (checked checks) = refl

none_left :
    (before after : List String) (n name : String)
    → n ∷ [] ≡ before ++ name ∷ after
    → before ++ after ≡ []
none_left [] [] n name e = refl
none_left [] (x ∷ xs) n name e = absurd (ground (arith, e))
none_left (b ∷ []) after n name e = absurd (ground (arith, e))
none_left (b ∷ c ∷ bs) after n name e = absurd (ground (arith, e))

none_running :
    (before after : List String) (name : String)
    → [] ≡ before ++ name ∷ after
    → before ++ after ≡ []
none_running [] after name e = absurd (ground (arith, e))
none_running (b ∷ bs) after name e = absurd (ground (arith, e))

step-IsExclusive : {s s' : RunServer} → RunStep s s' → IsExclusive s → IsExclusive s'
step-IsExclusive {s} (refuses r status text e) (free off none_runs) =
    free (refused_keeps s.locked r e ∙ off) none_runs
step-IsExclusive {s} (refuses r status text e) (held name on one_runs) =
    held name (refused_keeps s.locked r e ∙ on) one_runs
step-IsExclusive {s} (accepts r name e) (free off none_runs) =
    held name (runs_locks s.locked r e).1 (rw none_runs refl)
step-IsExclusive {s} (accepts r name e) (held other on one_runs) =
    absurd (ground (arith, runs_locks s.locked r e, on))
step-IsExclusive (ends before after name outcome e) (free off none_runs) =
    free (finish_unlocks outcome) (none_running before after name (sym none_runs ∙ e))
step-IsExclusive (ends before after name outcome e) (held other on one_runs) =
    free (finish_unlocks outcome) (none_left before after other name (sym one_runs ∙ e))

-- Whatever requests come and however runs end, with an error or with checks: the mutex is held exactly
-- while one scenario is running, and there is never a second one.
pub RunReach-IsExclusive : {s : RunServer} → RunReach s → IsExclusive s
RunReach-IsExclusive idle = free refl refl
RunReach-IsExclusive (later run step) = step-IsExclusive step (RunReach-IsExclusive run)

-- In a reachable state, an authorized request for a scenario of the registry is answered 409 if
-- a scenario is running, and is run if none is.
pub start_run_served :
    {s : RunServer} (r : RunRequest) (name : String)
    → RunReach s
    → authorized r ≡ true
    → find_scenario r.scenario scenarios ≡ some name
    → ((s.running ≡ []) × ((start_run s.locked r).1 ≡ runs name))
      ⊎ (¬ (s.running ≡ [])
          × ((start_run s.locked r).1
              ≡ refused 409 "another scenario is already running; try again shortly"))
unfolding start_run
start_run_served {s} r name run authorizes found = elim (RunReach-IsExclusive run) [
  | free off none_runs ↦ inl (none_runs, rw (authorizes, found, off) refl)
  | held other on one_runs ↦
      inr (λ e. absurd (ground (arith, e, one_runs)), rw (authorizes, found, on) refl)
]
