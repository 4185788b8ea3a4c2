-- ===== src/Loadgen/Scenarios/Hooks.antt =====
-- internal/loadgen/scenarios.go: the goroutines that the runs with a kill start, by the second in
-- which `onSecond` starts them.
use ratelimiter.Base.{
  ℕ, ◌-◌, ◌*◌, ◌^◌, ◌++◌, length, ltb, ◌+◌, ◌≤◌, ◌<◌, ◌≡◌, List, [], ◌∷◌, Option, none, some, Bool,
  false, leb, ◌==◌, Bool-cases, inl, inr, arith, if◌then◌else◌,
}
use ratelimiter.Loadgen.Driver.Seconds.{on_seconds, ticks_before}

pub data Fault : Type 0 where
  worker_kill coordinator_kill restore : Fault

-- The function that `runWorkerKill` gives to `Run`.
unfoldable pub worker_kill_hook : ℕ → ℕ → Option Fault
worker_kill_hook kill_at sec = if sec == kill_at then some worker_kill else none

-- The function that `runCoordinatorKill` gives to `Run`.
unfoldable pub coordinator_kill_hook : ℕ → ℕ → ℕ → Option Fault
coordinator_kill_hook kill_at restore_at sec =
    if sec == kill_at
    then some coordinator_kill
    else if sec == restore_at
    then some restore
    else none

-- The goroutines of a run, in the order in which they are started.
abbrev pub started : List (Option Fault) → List Fault
started [] = []
started (none ∷ os) = started os
started (some a ∷ os) = a ∷ started os

-- Where the seconds are `sec`, …, `sec + n - 1`.
abbrev pub reached : ℕ → ℕ → ℕ → Bool
reached at sec n = if leb sec at then leb (at + 1) (sec + n) else false

worker_kill_started :
    (kill_at duration sec : ℕ) (ticks : List ℕ)
    → started (on_seconds (worker_kill_hook kill_at) duration sec ticks)
      ≡ (if reached kill_at sec (ticks_before duration ticks) then worker_kill ∷ [] else [])
unfolding on_seconds worker_kill_hook
worker_kill_started kill_at duration sec [] = ground arith
worker_kill_started kill_at duration sec (tick ∷ ticks) =
    let ih = worker_kill_started kill_at duration (sec + 1) ticks in
    elim (Bool-cases (leb duration tick)) [
      | inl e ↦ rw e (ground arith)
      | inr e ↦ rw e (elim (Bool-cases (sec == kill_at)) [
        | inl m ↦ rw (m, ih) (ground (arith, m))
        | inr m ↦ rw (m, ih) (ground (arith, m))
      ])
    ]

-- What `runCoordinatorKill` starts: in one second only the first case of the switch.
abbrev pub kill_and_restore : (kill_at restore_at sec n : ℕ) → List Fault
kill_and_restore kill_at restore_at sec n =
    let killed : List Fault = if reached kill_at sec n then coordinator_kill ∷ [] else [] in
    let restored : List Fault = if reached restore_at sec n then restore ∷ [] else [] in
    if kill_at == restore_at
    then killed
    else if ltb kill_at restore_at
    then killed ++ restored
    else restored ++ killed

coordinator_kill_started :
    (kill_at restore_at duration sec : ℕ) (ticks : List ℕ)
    → started (on_seconds (coordinator_kill_hook kill_at restore_at) duration sec ticks)
      ≡ kill_and_restore kill_at restore_at sec (ticks_before duration ticks)
unfolding on_seconds coordinator_kill_hook
coordinator_kill_started kill_at restore_at duration sec [] = ground arith
coordinator_kill_started kill_at restore_at duration sec (tick ∷ ticks) =
    let ih = coordinator_kill_started kill_at restore_at duration (sec + 1) ticks in
    elim (Bool-cases (leb duration tick)) [
      | inl e ↦ rw e (ground arith)
      | inr e ↦ rw e (elim (Bool-cases (sec == kill_at)) [
        | inl m ↦ rw (m, ih) (ground (arith, m))
        | inr m ↦ elim (Bool-cases (sec == restore_at)) [
          | inl m' ↦ rw (m, m', ih) (ground (arith, m, m'))
          | inr m' ↦ rw (m, m', ih) (ground (arith, m, m'))
        ]
      ])
    ]

-- A ticker that is received from in time: the ticks come in the seconds `sec`, `sec + 1`, ….
abbrev pub IsPrompt : ℕ → List ℕ → Type 0
IsPrompt sec [] = Unit
IsPrompt sec (tick ∷ ticks) =
    (sec * 10 ^ 9 ≤ tick) × (tick < (sec + 1) * 10 ^ 9) × IsPrompt (sec + 1) ticks

ticks_before_prompt :
    (secs sec : ℕ) (ticks : List ℕ)
    → IsPrompt sec ticks
    → sec ≤ secs
    → secs ≤ sec + length ticks
    → sec + ticks_before (secs * 10 ^ 9) ticks ≡ secs
ticks_before_prompt secs sec [] p l h = omega (arith, l, h)
ticks_before_prompt secs sec (tick ∷ ticks) (a, b, p) l h =
    elim (Bool-cases (leb (secs * 10 ^ 9) tick)) [
      | inl e ↦ rw e (ground (arith, a, b, e, l))
      | inr e ↦ rw e (
          let more : sec + 1 ≤ secs = ground (arith, a, b, e) in
          let ih = ticks_before_prompt secs (sec + 1) ticks p more (omega (arith, h)) in
          omega (arith, ih))
    ]

-- In a run of some whole seconds whose ticker is received from in time, the kill of a worker is
-- started once if its second is one of the run after the first, and else never. So are the kill and
-- the restoration of the coordinator, in the order of their seconds, but of two in one second only
-- the kill.
pub hooks_start :
    (kill_at restore_at secs : ℕ) (ticks : List ℕ)
    → IsPrompt 1 ticks
    → 1 ≤ secs
    → secs ≤ 1 + length ticks
    → (started (on_seconds (worker_kill_hook kill_at) (secs * 10 ^ 9) 1 ticks)
        ≡ (if reached kill_at 1 (secs - 1) then worker_kill ∷ [] else []))
      × (started (on_seconds (coordinator_kill_hook kill_at restore_at) (secs * 10 ^ 9) 1 ticks)
          ≡ kill_and_restore kill_at restore_at 1 (secs - 1))
hooks_start kill_at restore_at secs ticks p l h =
    let n : ticks_before (secs * 10 ^ 9) ticks ≡ secs - 1 =
      omega (arith, ticks_before_prompt secs 1 ticks p l h) in
    (
      rw (← n) (worker_kill_started kill_at (secs * 10 ^ 9) 1 ticks),
      rw (← n) (coordinator_kill_started kill_at restore_at (secs * 10 ^ 9) 1 ticks),
    )
