-- ===== src/Loadgen/Kube/Poll.antt =====
-- The loops of internal/loadgen/kube.go that wait for the cluster: `WaitDeploymentReady` tests the
-- deadline after a probe, `waitHTTPReady` before one. A loop has as many rounds as intervals fit into
-- its timeout, and two more; running out of them would be `none`.
pub mod Ends
use ratelimiter.Base.{
  ℕ, zero, suc, ◌+◌, ◌*◌, ◌/◌, ◌^◌, ◌≤◌, ◌<◌, ◌≡◌, refl, String, Option, none, some, Bool, true,
  false, ◌&&◌, ltb, ◌==◌, if◌then◌else◌,
}
use ratelimiter.Loadgen.Kube.Objects.{Deployment}
use ratelimiter.Loadgen.Kube.Client.{Client, Error, late, Result, ok, err}

abbrev pub second : ℕ
second = 10 ^ 9

-- The rounds of a loop.
abbrev pub rounds : ℕ → ℕ → ℕ
rounds timeout interval = suc (suc (timeout / interval))

abbrev pub succeeded : Result Bool → Bool
succeeded (ok b) = b
succeeded (err e) = false

abbrev pub answers_ok : Result ℕ → Bool
answers_ok (ok status) = status == 200
answers_ok (err e) = false

-- The test of `WaitDeploymentReady` on what the API server answers; an error is no readiness.
unfoldable pub is_ready : ℕ → Result Deployment → Bool
is_ready replicas (err e) = false
is_ready replicas (ok d) =
    d.status.ready_replicas == replicas
    && d.status.updated_replicas == replicas
    && d.status.replicas == replicas
    && d.generation == d.status.observed_generation

module _ (c : Client) where
  abbrev pub Action : Type 0 → Type 0
  Action A = c.State → Result A × c.State

  -- Round by round: a probe, the deadline, and a wait.
  unfoldable pub poll :
      ℕ
      → Action Bool
      → (deadline interval : ℕ) → String
      → c.State
      → Option (Result (Unit {0}) × c.State)
  poll zero probe deadline interval what s = none
  poll (suc fuel) probe deadline interval what s =
      let (tested, s') = probe s in
      elim tested [
        | err e ↦ some (err e, s')
        | ok found ↦
            if found
            then some (ok tt, s')
            else if ltb deadline (c.now s')
            then some (err (late what), s')
            else let (waited, s'') = c.wait interval s' in
              elim waited [
                | err e ↦ some (err e, s'')
                | ok _ ↦ poll fuel probe deadline interval what s''
              ]
      ]

  unfoldable pub probe_deployment : String → ℕ → Action Bool
  unfolding is_ready
  probe_deployment name replicas s =
      let (answer, s') = c.get name s in (ok (is_ready replicas answer), s')

  -- `WaitDeploymentReady`
  unfoldable pub wait_deployment_ready :
      String → ℕ → (timeout : ℕ) → c.State → Option (Result (Unit {0}) × c.State)
  unfolding poll probe_deployment
  wait_deployment_ready name replicas timeout s =
      poll (rounds timeout second) (probe_deployment name replicas) (c.now s + timeout) second name
        s

  -- The loop of `waitHTTPReady`.
  unfoldable pub poll_before :
      ℕ
      → Action Bool
      → (deadline interval : ℕ) → String
      → c.State
      → Option (Result (Unit {0}) × c.State)
  poll_before zero probe deadline interval what s = none
  poll_before (suc fuel) probe deadline interval what s =
      if ltb (c.now s) deadline
      then (let (tested, s') = probe s in
          if succeeded tested
          then some (ok tt, s')
          else let (waited, s'') = c.wait interval s' in
            elim waited [
              | err e ↦ some (err e, s'')
              | ok _ ↦ poll_before fuel probe deadline interval what s''
            ])
      else some (err (late what), s)

  -- A GET; an error is no answer.
  unfoldable pub probe_http : String → Action Bool
  probe_http url s = let (answer, s') = c.fetch url s in (ok (answers_ok answer), s')

  -- `waitHTTPReady`
  unfoldable pub wait_http_ready :
      String → (timeout : ℕ) → c.State → Option (Result (Unit {0}) × c.State)
  unfolding poll_before probe_http
  wait_http_ready url timeout s =
      poll_before (rounds timeout (second / 2)) (probe_http url) (c.now s + timeout) (second / 2)
        url s
