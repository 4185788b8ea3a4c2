-- ===== src/Loadgen/Kube/Client.antt =====
-- The clients that internal/loadgen/kube.go calls, over an unknown state of the cluster: those of
-- client-go, `retry.OnError` of the same module, net/http, and the clock. What the code relies on is
-- stated as laws.
use ratelimiter.Base.{ℕ, ◌+◌, ◌≤◌, ◌≡◌, String, List, Option, some, Bool, true, false}
use ratelimiter.Loadgen.Kube.Objects.{Deployment, DeploymentSpec, Service, Pod}

-- The errors that the code tells apart: those of the API, the end of the context, and its own texts,
-- which may wrap another error.
pub data Error : Type 0 where
  conflict already_exists not_found cancelled : Error
  other : String → Error
  late : (what : String) → Error
  wrapped : (text : String) → Error → Error

pub data Result {ℓ} (A : Type ℓ) : Type ℓ where
  ok : A → Result A
  err : Error → Result A

abbrev pub is_conflict : Error → Bool
is_conflict conflict = true
is_conflict _ = false

abbrev pub is_already_exists : Error → Bool
is_already_exists already_exists = true
is_already_exists _ = false

abbrev pub is_not_found : Error → Bool
is_not_found not_found = true
is_not_found _ = false

-- The calls that change the cluster.
pub data Call : Type 0 where
  create_deployment : Deployment → Call
  update_deployment : Deployment → Call
  create_service : Service → Call
  scale : (deployment : String) → (replicas : ℕ) → Call
  mark_cheapest : (pod : String) → Call
  force_delete : (pod : String) → Call

pub record Client : Type 1 where
  pub State : Type 0
  pub now : State → ℕ
  pub send : Call → State → Result (Unit {0}) × State
  pub get : String → State → Result Deployment × State
  pub list_pods : (role : String) → State → Result (List Pod) × State
  -- The status code that a GET of a URL is answered with.
  pub fetch : (url : String) → State → Result ℕ × State
  -- The counters by tenant that a worker's pod reports, or what went wrong with the request or the
  -- decoding.
  pub worker_stats : Pod → State → Result (List (String × List (String × ℕ))) × State
  -- `select` over the context and `time.After`.
  pub wait : ℕ → State → Result (Unit {0}) × State
  pub on_error :
      (Error → Bool) → (State → Result (Unit {0}) × State) → State → Result (Unit {0}) × State
  -- The specification that the API server holds for a deployment.
  pub stored : State → String → Option DeploymentSpec

-- The runs of a function that is tried again after errors that may be retried, with a pause between
-- two tries in which the cluster may change.
pub data Tries {S : Type 0} (may_retry : Error → Bool) (f : S → Result (Unit {0}) × S)
    : S → Result (Unit {0}) × S → Type 0 where
  stops : (s : S) → Tries may_retry f s (f s)
  again :
      (s s' next : S) (e : Error) (out : Result (Unit {0}) × S)
      → f s ≡ (err e, s')
      → may_retry e ≡ true
      → Tries may_retry f next out
      → Tries may_retry f s out

-- The monotonic clock: a call takes time, and a wait that is not cut off takes as long as it says.
pub record IsClocked (c : Client) : Type 0 where
  pub get_takes : (name : String) (s : c.State) → c.now s ≤ c.now (c.get name s).1
  pub fetch_takes : (url : String) (s : c.State) → c.now s ≤ c.now (c.fetch url s).1
  pub list_takes : (role : String) (s : c.State) → c.now s ≤ c.now (c.list_pods role s).1
  pub stats_takes : (p : Pod) (s : c.State) → c.now s ≤ c.now (c.worker_stats p s).1
  pub wait_takes : (d : ℕ) (s s' : c.State) → c.wait d s ≡ (ok tt, s') → c.now s + d ≤ c.now s'
  pub wait_fails : (d : ℕ) (s s' : c.State) (e : Error) → c.wait d s ≡ (err e, s') → e ≡ cancelled

-- What the API server promises of a deployment that is read or written, and `retry.OnError`.
pub record IsStoring (c : Client) : Type 0 where
  pub get_named :
      (name : String) (s s' : c.State) (d : Deployment) → c.get name s ≡ (ok d, s') → d.name ≡ name
  pub create_stores :
      (d : Deployment) (s s' : c.State)
      → c.send (create_deployment d) s ≡ (ok tt, s')
      → c.stored s' d.name ≡ some d.spec
  pub update_stores :
      (d : Deployment) (s s' : c.State)
      → c.send (update_deployment d) s ≡ (ok tt, s')
      → c.stored s' d.name ≡ some d.spec
  pub tries :
      (may_retry : Error → Bool) (f : c.State → Result (Unit {0}) × c.State) (s : c.State)
      → Tries may_retry f s (c.on_error may_retry f s)
