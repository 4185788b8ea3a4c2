-- ===== src/Loadgen/Scenarios/Scaling/Ends.antt =====
-- How the script of `runScaling` ends.
use ratelimiter.Base.{ℕ, ◌*◌, ◌≡◌, refl, String, List, [], ◌∷◌, Option, some}
use ratelimiter.Loadgen.Kube.Objects.{Kube, worker_name, worker_cpu_scaling}
use ratelimiter.Loadgen.Kube.Client.{Client, Error, Result, ok, err, scale}
use ratelimiter.Loadgen.Kube.Poll.{second}
use ratelimiter.Loadgen.Kube.Lifecycle.Setup.{Serving}
use ratelimiter.Loadgen.Kube.Lifecycle.{ensure_rate_limiter}
use ratelimiter.Loadgen.Kube.Reached.{wait_all_workers_reachable}
use ratelimiter.Loadgen.Kube.Reached.Ends.{Reaching}
use ratelimiter.Loadgen.Scenarios.Loads.{Load}
use ratelimiter.Loadgen.Scenarios.Scaling.{Measured, bind, measure_phase}

-- A call that returns, with what it returns.
abbrev pub Gives {ℓ} :
    {S : Type 0} {A : Type ℓ} → (Result A × S → Type 0) → Option (Result A × S) → Type ℓ
Gives {S = S} {A = A} P o = (out : Result A × S) × (o ≡ some out) × P out

pub bind-Gives :
    {S A B : Type 0} (P : Result B × S → Type 0) (first : Option (Result A × S))
    (next : A → S → Option (Result B × S))
    → ((e : Error) (s : S) → first ≡ some (err e, s) → P (err e, s))
    → Gives (λ out. (a : A) (s : S) → out ≡ (ok a, s) → Gives P (next a s)) first
    → Gives P (bind first next)
bind-Gives P first next stop ((ok a, s), e, go) = rw e (go a s refl)
bind-Gives P first next stop ((err x, s), e, go) =
    let stopped = stop x s e in rw e ((err x, s), refl, stopped)

module _ (c : Client) (drive : List Load → ℕ → c.State → Measured × c.State) (k : Kube)
    (url : String) (load : List Load) (secs : ℕ) where
  -- A phase from `s0` on: the cluster was made to serve with the number of workers, from there all of
  -- them were waited for, and from there the results were measured.
  pub data Phase (n : ℕ) (s0 : c.State) : Result Measured × c.State → Type 0 where
    not_served :
        (e : Error) (s : c.State)
        → ensure_rate_limiter c k n worker_cpu_scaling s0 ≡ some (err e, s)
        → Phase n s0 (err e, s)
    not_reached :
        (e : Error) (served s : c.State)
        → Serving c k n worker_cpu_scaling s0 (ok tt, served)
        → wait_all_workers_reachable c url (45 * second) served ≡ some (err e, s)
        → Phase n s0 (err e, s)
    measured :
        (served reached : c.State)
        → Serving c k n worker_cpu_scaling s0 (ok tt, served)
        → wait_all_workers_reachable c url (45 * second) served ≡ some (ok tt, reached)
        → Reaching c url (45 * second) (ok tt, reached)
        → (rs : Measured) (s : c.State) → measure_phase c drive k url load secs reached ≡ (rs, s)
        → Phase n s0 (ok rs, s)

  -- The phases one after the other, each from the state in which the last one ended.
  pub data Phases : List ℕ → c.State → Result (List Measured) × c.State → Type 0 where
    gave_up :
        (n : ℕ) (ns : List ℕ) (s0 : c.State) (e : Error) (s : c.State)
        → Phase n s0 (err e, s)
        → Phases (n ∷ ns) s0 (err e, s)
    gave_up_later :
        (n : ℕ) (ns : List ℕ) (rs : Measured) (s0 s1 : c.State) (e : Error) (s : c.State)
        → Phase n s0 (ok rs, s1)
        → Phases ns s1 (err e, s)
        → Phases (n ∷ ns) s0 (err e, s)
    over : (s : c.State) → Phases [] s (ok [], s)
    phase :
        (n : ℕ) (ns : List ℕ) (rs : Measured) (rest : List Measured) (s0 s s' : c.State)
        → Phase n s0 (ok rs, s)
        → Phases ns s (ok rest, s')
        → Phases (n ∷ ns) s0 (ok (rs ∷ rest), s')

  pub data Scaling (s0 : c.State) : Result (List Measured) × c.State → Type 0 where
    failed :
        (e : Error) (s : c.State) → Phases (1 ∷ 2 ∷ 4 ∷ []) s0 (err e, s) → Scaling s0 (err e, s)
    not_scaled :
        (phases : List Measured) (e : Error) (s s' : c.State)
        → Phases (1 ∷ 2 ∷ 4 ∷ []) s0 (ok phases, s)
        → c.send (scale worker_name 2) s ≡ (err e, s')
        → Scaling s0 (err e, s')
    scaled :
        (phases : List Measured) (s s' : c.State)
        → Phases (1 ∷ 2 ∷ 4 ∷ []) s0 (ok phases, s)
        → c.send (scale worker_name 2) s ≡ (ok tt, s')
        → Scaling s0 (ok phases, s')
