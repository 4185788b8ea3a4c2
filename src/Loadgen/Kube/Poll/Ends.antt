-- ===== src/Loadgen/Kube/Poll/Ends.antt =====
-- How the waiting loops end.
use ratelimiter.Base.{
  ℕ, zero, suc, ◌+◌, ◌*◌, ◌/◌, ◌≤◌, ◌<◌, ◌≡◌, refl, String, Option, some, Bool, true, false,
  Bool-cases, inl, inr, arith, ltb, if◌then◌else◌, div_bounds,
}
use ratelimiter.Loadgen.Kube.Client.{Client, Error, late, cancelled, Result, ok, err, IsClocked}
use ratelimiter.Loadgen.Kube.Poll.{
  Action, second, succeeded, probe_http, poll, poll_before, probe_deployment, wait_deployment_ready,
  wait_http_ready,
}

module _ (c : Client) where
  -- The four ways: the probe succeeded, it failed for good, the deadline has passed, or the context
  -- is done.
  pub data Ended (probe : Action c Bool) (deadline : ℕ) (what : String)
      : Result (Unit {0}) × c.State → Type 0 where
    found : (s s' : c.State) → probe s ≡ (ok true, s') → Ended probe deadline what (ok tt, s')
    broke :
        (s s' : c.State) (e : Error) → probe s ≡ (err e, s') → Ended probe deadline what (err e, s')
    timed_out : (s : c.State) → deadline ≤ c.now s → Ended probe deadline what (err (late what), s)
    cut : (s : c.State) → Ended probe deadline what (err cancelled, s)

  -- A loop that has returned, in one of those ways.
  abbrev pub Returns :
      (probe : Action c Bool) (deadline : ℕ) (what : String)
      → Option (Result (Unit {0}) × c.State)
      → Type 0
  Returns probe deadline what o =
      (out : Result (Unit {0}) × c.State) × (o ≡ some out) × Ended probe deadline what out

module _ (c : Client) (clocked : IsClocked c) (probe : Action c Bool)
    (takes : (s : c.State) → c.now s ≤ c.now (probe s).1) (deadline interval : ℕ)
    (what : String) where
  -- One round, by what the rounds after it do.
  round_ends :
      (n : ℕ) (s : c.State)
      → ((next : c.State)
          → c.now s ≤ deadline
          → c.now s + interval ≤ c.now next
          → Returns c probe deadline what (poll c n probe deadline interval what next))
      → Returns c probe deadline what (poll c (suc n) probe deadline interval what s)
  unfolding poll
  round_ends n s after = after_probe (probe s).0 (probe s).1 refl (takes s)
    where
      after_wait :
          (waited : Result (Unit {0})) (s' s'' : c.State)
          → c.wait interval s' ≡ (waited, s'')
          → c.now s ≤ c.now s'
          → c.now s' ≤ deadline
          → Returns c probe deadline what (elim waited [
            | err e ↦ some (err e, s'')
            | ok _ ↦ poll c n probe deadline interval what s''
          ])
      after_wait (err e) s' s'' w le early =
          ((err e, s''), refl, rw (clocked.wait_fails interval s' s'' e w) (cut s''))
      after_wait (ok u) s' s'' w le early =
          after s'' (omega (arith, le, early))
            (omega (arith, le, clocked.wait_takes interval s' s'' w))

      after_probe :
          (tested : Result Bool) (s' : c.State)
          → probe s ≡ (tested, s')
          → c.now s ≤ c.now s'
          → Returns c probe deadline what (elim tested [
            | err e ↦ some (err e, s')
            | ok done ↦
                if done
                then some (ok tt, s')
                else if ltb deadline (c.now s')
                then some (err (late what), s')
                else elim (c.wait interval s').0 [
                  | err e ↦ some (err e, (c.wait interval s').1)
                  | ok _ ↦ poll c n probe deadline interval what (c.wait interval s').1
                ]
          ])
      after_probe (err e) s' p le = ((err e, s'), refl, broke s s' e p)
      after_probe (ok true) s' p le = ((ok tt, s'), refl, found s s' p)
      after_probe (ok false) s' p le = elim (Bool-cases (ltb deadline (c.now s'))) [
        | inl e ↦ rw e ((err (late what), s'), refl, timed_out s' (ground (arith, e)))
        | inr e ↦ rw e (
            after_wait (c.wait interval s').0 s' (c.wait interval s').1 refl le (ground (arith, e)))
      ]

  pub poll_ends :
      (n : ℕ) (s : c.State)
      → deadline < c.now s + n * interval
      → Returns c probe deadline what (poll c (suc n) probe deadline interval what s)
  poll_ends zero s h = round_ends zero s (λ next early later. absurd (omega (arith, h, early)))
  poll_ends (suc n) s h =
      round_ends (suc n) s (λ next early later. poll_ends n next (grind (arith, h, later)))

module _ (c : Client) (clocked : IsClocked c) (probe : Action c Bool)
    (takes : (s : c.State) → c.now s ≤ c.now (probe s).1) (deadline interval : ℕ)
    (what : String) where
  round_before_ends :
      (n : ℕ) (s : c.State)
      → ((next : c.State)
          → c.now s + interval ≤ c.now next
          → Returns c probe deadline what (poll_before c n probe deadline interval what next))
      → Returns c probe deadline what (poll_before c (suc n) probe deadline interval what s)
  unfolding poll_before
  round_before_ends n s after = elim (Bool-cases (ltb (c.now s) deadline)) [
    | inl e ↦ rw e (after_probe (probe s).0 (probe s).1 refl (takes s))
    | inr e ↦ rw e ((err (late what), s), refl, timed_out s (ground (arith, e)))
  ]
    where
      after_wait :
          (waited : Result (Unit {0})) (s' s'' : c.State)
          → c.wait interval s' ≡ (waited, s'')
          → c.now s ≤ c.now s'
          → Returns c probe deadline what (elim waited [
            | err e ↦ some (err e, s'')
            | ok _ ↦ poll_before c n probe deadline interval what s''
          ])
      after_wait (err e) s' s'' w le =
          ((err e, s''), refl, rw (clocked.wait_fails interval s' s'' e w) (cut s''))
      after_wait (ok u) s' s'' w le =
          after s'' (omega (arith, le, clocked.wait_takes interval s' s'' w))

      after_probe :
          (tested : Result Bool) (s' : c.State)
          → probe s ≡ (tested, s')
          → c.now s ≤ c.now s'
          → Returns c probe deadline what (
              if succeeded tested then some (ok tt, s') else elim (c.wait interval s').0 [
                | err e ↦ some (err e, (c.wait interval s').1)
                | ok _ ↦ poll_before c n probe deadline interval what (c.wait interval s').1
              ])
      after_probe (ok true) s' p le = ((ok tt, s'), refl, found s s' p)
      after_probe (ok false) s' p le =
          after_wait (c.wait interval s').0 s' (c.wait interval s').1 refl le
      after_probe (err e) s' p le =
          after_wait (c.wait interval s').0 s' (c.wait interval s').1 refl le

  pub poll_before_ends :
      (n : ℕ) (s : c.State)
      → deadline ≤ c.now s + n * interval
      → Returns c probe deadline what (poll_before c (suc n) probe deadline interval what s)
  unfolding poll_before
  poll_before_ends zero s h =
      let over : ltb (c.now s) deadline ≡ false = ground (arith, h) in
      rw over ((err (late what), s), refl, timed_out s (omega (arith, h)))
  poll_before_ends (suc n) s h =
      round_before_ends (suc n) s (λ next later. poll_before_ends n next (grind (arith, h, later)))

module _ (c : Client) (clocked : IsClocked c) where
  -- Whatever the API server answers: `WaitDeploymentReady` returns, within its rounds; nil only after
  -- it has read the deployment in the wanted state, a timeout only once its deadline has passed, and
  -- any other error only because the context is done.
  pub wait_deployment_ready_ends :
      (name : String) (replicas timeout : ℕ) (s : c.State)
      → Returns c
          (probe_deployment c name replicas)
          (c.now s + timeout)
          name
          (wait_deployment_ready c name replicas timeout s)
  unfolding wait_deployment_ready probe_deployment
  wait_deployment_ready_ends name replicas timeout s =
      poll_ends c clocked (probe_deployment c name replicas) (takes name replicas)
        (c.now s + timeout) second name (suc (timeout / second)) s
        (omega (arith, div_bounds timeout second (omega arith)))
    where
      takes :
          (name : String) (replicas : ℕ) (s : c.State)
          → c.now s ≤ c.now (probe_deployment c name replicas s).1
      takes name replicas s = clocked.get_takes name s

  -- So does `waitHTTPReady`: nil only after a GET that was answered 200, a timeout only once its
  -- deadline has been reached, and any other error only because the context is done.
  pub wait_http_ready_ends :
      (url : String) (timeout : ℕ) (s : c.State)
      → Returns c (probe_http c url) (c.now s + timeout) url (wait_http_ready c url timeout s)
  unfolding wait_http_ready probe_http
  wait_http_ready_ends url timeout s =
      poll_before_ends c clocked (probe_http c url) (λ s. clocked.fetch_takes url s)
        (c.now s + timeout) (second / 2) url (suc (timeout / (second / 2))) s
        (omega (arith, div_bounds timeout (second / 2) (omega arith)))
