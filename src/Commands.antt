-- ===== src/Commands.antt =====
-- cmd/ratelim/main.go, and the functions that start the servers: `Run` and `Handler` of
-- internal/coordinator/coordinator.go and internal/worker/server.go, `Run` of
-- internal/loadgen/server.go, and `NewKube` of internal/loadgen/kube.go.
-- What they call outside the repository is a record of parameters: the flag package, the operating
-- system, client-go's credentials, the YAML decoder, and net/http, which listens with a table of
-- patterns and handlers until it returns an error. The texts of `%w` and `%q` are two more.
pub mod Started
pub mod Ends
mod Examples
use ratelimiter.Base.{
  ℕ, ◌≡◌, ◌≢◌, String, List, [], ◌∷◌, Option, none, some, Bool, true, false, ◌⊎◌, inl, inr,
  if◌then◌else◌, str_eq,
}
use Prim.Native.String.{◌++◌ as str_append}
use ratelimiter.Config.{Config, LoadError, load, loaded}
use ratelimiter.Config
use ratelimiter.Coordinator
use ratelimiter.Worker.Limiter.{Limiter, new_limiter}
use ratelimiter.Loadgen.Kube.Objects.{Kube}

-- The handlers that a mux is given.
pub data Endpoint : Type 0 where
  lease_call : Endpoint
  coordinator_stats : Endpoint
  check_call : Endpoint
  worker_stats : Endpoint
  list_scenarios : Endpoint
  run_call : Endpoint
  healthz : Endpoint

-- The state behind the handlers of a server.
pub data Backend : Type 0 where
  coordinator : Coordinator.Server → Backend
  worker : (url id : String) → Limiter → Backend
  loadgen : Kube → (worker_url coordinator_url : String) → Backend

-- The patterns of `Handler`, and of `Run` in the load generator.
abbrev pub coordinator_routes : List (String × Endpoint)
coordinator_routes =
    ("POST /v1/lease", lease_call)
    ∷ ("GET /v1/stats", coordinator_stats)
    ∷ ("GET /healthz", healthz)
    ∷ []

abbrev pub worker_routes : List (String × Endpoint)
worker_routes =
    ("GET /v1/check/{tenant}", check_call)
    ∷ ("GET /v1/stats", worker_stats)
    ∷ ("GET /healthz", healthz)
    ∷ []

abbrev pub loadgen_routes : List (String × Endpoint)
loadgen_routes =
    ("GET /scenarios", list_scenarios) ∷ ("GET /run", run_call) ∷ ("GET /healthz", healthz) ∷ []

abbrev pub routes : Backend → List (String × Endpoint)
routes (coordinator s) = coordinator_routes
routes (worker url id lm) = worker_routes
routes (loadgen kube worker_url coordinator_url) = loadgen_routes

-- A function that starts a server: it serves on without end, or returns a nil or non-nil error.
pub data Served : Type 0 where
  serves_on : Served
  returned : Option String → Served

-- What `Parse` does with ExitOnError: the value of each flag, the help, or a complaint.
pub data Parsed : Type 0 where
  values : (String → String) → Parsed
  asked_help : Parsed
  refused_flags : Parsed

pub record Outside : Type 0 where
  pub parse : List (String × String) → List String → Parsed
  pub hostname : String
  pub getenv : String → String
  pub read_file : String → Option String
  pub unmarshal : String → Option Config
  pub load_text : LoadError → String
  pub quoted : String → String
  pub started : ℕ
  pub now : ℕ
  pub in_cluster : Bool
  pub kubeconfig : Option String
  pub client_set : Option String
  pub listen : String → Backend → List (String × Endpoint) → Served
  -- ListenAndServe always returns a non-nil error.
  pub listen_fails :
      (addr : String) (s : Backend) (rs : List (String × Endpoint))
      → listen addr s rs ≢ returned none

-- How the process ends, if it does.
pub data Exit : Type 0 where
  serving : Exit
  exited : (code : ℕ) → Exit

-- The flags of the subcommands, with their defaults.
abbrev pub coordinator_flags : List (String × String)
coordinator_flags = ("config", "/etc/ratelim/config.yaml") ∷ ("addr", ":8081") ∷ []

abbrev pub worker_flags : List (String × String)
worker_flags = ("coordinator", "http://coordinator:8081") ∷ ("addr", ":8080") ∷ []

abbrev pub loadgen_flags : List (String × String)
loadgen_flags =
    ("addr", ":8080")
    ∷ ("workers", "http://ratelim-workers:8080")
    ∷ ("coordinator", "http://coordinator:8081")
    ∷ []

-- The end of `main` on the error of a `Run`: `log.Fatal` unless it is nil.
unfoldable pub fatal : Served → Exit
fatal serves_on = serving
fatal (returned none) = exited 0
fatal (returned (some e)) = exited 1

module _ (o : Outside) where
  -- `NewKube` from the clients on: the namespace and the image, or the text of the error.
  unfoldable pub from_env : Kube ⊎ String
  from_env =
      let ns = o.getenv "POD_NAMESPACE" in
      let image = o.getenv "IMAGE" in
      if str_eq image ""
      then inr "IMAGE env var must name the ratelim container image"
      else inl (record { ns = if str_eq ns "" then "ratelimiter" else ns; image = image })

  -- `NewKube`; `kubeconfig` and `client_set` are the errors of the calls of those names.
  unfoldable pub new_kube : Kube ⊎ String
  unfolding from_env
  new_kube =
      let connected : Kube ⊎ String = elim o.client_set [ some e ↦ inr e | none ↦ from_env ] in
      if o.in_cluster then connected else elim o.kubeconfig [
        | some e ↦ inr (str_append "no in-cluster or kubeconfig credentials: " e)
        | none ↦ connected
      ]

  -- `Run` of the coordinator.
  unfoldable pub run_coordinator : (path addr : String) → Served
  unfolding load Coordinator.new
  run_coordinator path addr = elim (load o.unmarshal (o.read_file path)) [
    | Config.failed e ↦ returned (some (o.load_text e))
    | loaded cfg ↦
        let s = coordinator (Coordinator.new cfg o.started o.now) in o.listen addr s (routes s)
  ]

  -- `Run` of a worker.
  unfoldable pub run_worker : (coordinator_url addr : String) → Served
  run_worker coordinator_url addr =
      let s = worker coordinator_url o.hostname new_limiter in o.listen addr s (routes s)

  -- `Run` of the load generator.
  unfoldable pub run_loadgen : (addr worker_url coordinator_url : String) → Served
  unfolding new_kube
  run_loadgen addr worker_url coordinator_url = elim new_kube [
    | inr e ↦ returned (some e)
    | inl kube ↦ let s = loadgen kube worker_url coordinator_url in o.listen addr s (routes s)
  ]

  -- A subcommand: its flags, and its `Run` on their values.
  unfoldable pub with_flags :
      List (String × String) → List String → ((String → String) → Served) → Exit
  unfolding fatal
  with_flags defaults rest run = elim (o.parse defaults rest) [
    | values value ↦ fatal (run value)
    | asked_help ↦ exited 0
    | refused_flags ↦ exited 2
  ]

  -- `main` after its test of the number of arguments.
  unfoldable pub subcommand : String → List String → Exit
  unfolding with_flags run_coordinator run_worker run_loadgen fatal
  subcommand name rest =
      if str_eq name "coordinator"
      then with_flags coordinator_flags rest
          (λ value. run_coordinator (value "config") (value "addr"))
      else if str_eq name "worker"
      then with_flags worker_flags rest (λ value. run_worker (value "coordinator") (value "addr"))
      else if str_eq name "loadgen"
      then with_flags loadgen_flags rest
          (λ value. run_loadgen (value "addr") (value "workers") (value "coordinator"))
      else fatal (returned (some (str_append "unknown subcommand " (o.quoted name))))

  -- `main`, on `os.Args`.
  unfoldable pub main : List String → Exit
  unfolding subcommand
  main [] = exited 2
  main (program ∷ []) = exited 2
  main (program ∷ name ∷ rest) = subcommand name rest
