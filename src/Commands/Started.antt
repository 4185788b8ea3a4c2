-- ===== src/Commands/Started.antt =====
-- What the three `Run` functions start to serve, and how they fail.
use ratelimiter.Base.{
  ◌≡◌, refl, subst, if◌then◌else◌, String, none, some, true, false, ◌⊎◌, inl, inr, arith, str_eq,
  Bool-cases,
}
use ratelimiter.Config.{Config, load, loaded}
use ratelimiter.Config
use ratelimiter.Config.Validation.{IsUsable, load_iff}
use ratelimiter.Coordinator
use ratelimiter.Worker.Limiter.{new_limiter}
use ratelimiter.Loadgen.Kube.Objects.{Kube}
use ratelimiter.Commands.{
  Backend, coordinator, worker, loadgen, routes, Served, serves_on, returned, Outside, from_env,
  new_kube, run_coordinator, run_worker, run_loadgen,
}

-- An image and a namespace.
abbrev pub IsNamed : Kube → Type 0
IsNamed kube = (str_eq kube.image "" ≡ false) × (str_eq kube.ns "" ≡ false)

-- The address and the state with which a subcommand starts to listen, by the values of its flags: the
-- coordinator with a fresh bucket for each tenant of a configuration that was read from the file that
-- is named and is usable, a worker without pools that leases from the coordinator that is named, the
-- load generator with an image and a namespace, for the URLs that are named.
pub data IsReady (o : Outside) (name : String) (value : String → String)
    : String → Backend → Type 0 where
  coordinator_ready :
      (raw : String) (cfg : Config)
      → str_eq name "coordinator" ≡ true
      → o.read_file (value "config") ≡ some raw
      → o.unmarshal raw ≡ some cfg
      → IsUsable cfg
      → IsReady o name value (value "addr") (coordinator (Coordinator.new cfg o.started o.now))
  worker_ready :
      str_eq name "worker" ≡ true
      → IsReady o name value (value "addr") (worker (value "coordinator") o.hostname new_limiter)
  loadgen_ready :
      (kube : Kube)
      → str_eq name "loadgen" ≡ true
      → new_kube o ≡ inl kube
      → IsNamed kube
      → IsReady o name value (value "addr") (loadgen kube (value "workers") (value "coordinator"))

-- The errors of a `Run`: the configuration is refused, there is no cluster, or the listening fails.
pub data IsFailure (o : Outside) (name : String) (value : String → String) : String → Type 0 where
  refused_config :
      (e : Config.LoadError)
      → str_eq name "coordinator" ≡ true
      → load o.unmarshal (o.read_file (value "config")) ≡ Config.failed e
      → IsFailure o name value (o.load_text e)
  no_kube :
      (e : String) → str_eq name "loadgen" ≡ true → new_kube o ≡ inr e → IsFailure o name value e
  not_listening :
      (addr e : String) (s : Backend)
      → IsReady o name value addr s
      → o.listen addr s (routes s) ≡ returned (some e)
      → IsFailure o name value e

-- The `Run` of a subcommand listens with what is ready and serves on, or it returns an error.
pub data Ran (o : Outside) (name : String) (value : String → String) : Served → Type 0 where
  listens :
      (addr : String) (s : Backend)
      → IsReady o name value addr s
      → o.listen addr s (routes s) ≡ serves_on
      → Ran o name value serves_on
  fails : (e : String) → IsFailure o name value e → Ran o name value (returned (some e))

ns_named : (ns : String) → str_eq (if str_eq ns "" then "ratelimiter" else ns) "" ≡ false
ns_named ns = elim (Bool-cases (str_eq ns "")) [ inl e ↦ rw e refl | inr e ↦ rw e e ]

module _ (o : Outside) where
  -- Whatever listening comes to.
  listen-Ran :
      (name : String) (value : String → String) (addr : String) (s : Backend)
      → IsReady o name value addr s
      → (r : Served) → o.listen addr s (routes s) ≡ r
      → Ran o name value r
  listen-Ran name value addr s ready serves_on e = listens addr s ready e
  listen-Ran name value addr s ready (returned none) e = absurd (o.listen_fails addr s (routes s) e)
  listen-Ran name value addr s ready (returned (some t)) e =
      fails t (not_listening addr t s ready e)

  pub load-Ran :
      (name : String) (value : String → String)
      → str_eq name "coordinator" ≡ true
      → Ran o name value (run_coordinator o (value "config") (value "addr"))
  unfolding run_coordinator
  load-Ran name value known = by_load (load o.unmarshal (o.read_file (value "config"))) refl
    where
      by_load :
          (r : Config.LoadResult)
          → load o.unmarshal (o.read_file (value "config")) ≡ r
          → Ran o name value (elim r as (λ _. Served) [
            | Config.failed e ↦ returned (some (o.load_text e))
            | loaded cfg ↦
                let s = coordinator (Coordinator.new cfg o.started o.now) in
                o.listen (value "addr") s (routes s)
          ])
      by_load (Config.failed e) h = fails (o.load_text e) (refused_config e known h)
      by_load (loaded cfg) h =
          let (raw, read, decoded, usable) =
            (load_iff o.unmarshal (o.read_file (value "config")) cfg).0 h in
          listen-Ran name value (value "addr") (coordinator (Coordinator.new cfg o.started o.now))
            (coordinator_ready raw cfg known read decoded usable) _ refl

  pub worker-Ran :
      (name : String) (value : String → String)
      → str_eq name "worker" ≡ true
      → Ran o name value (run_worker o (value "coordinator") (value "addr"))
  unfolding run_worker
  worker-Ran name value known =
      listen-Ran name value (value "addr") (worker (value "coordinator") o.hostname new_limiter)
        (worker_ready known) _ refl

  -- The environment that `NewKube` accepts.
  from_env-IsNamed : (kube : Kube) → from_env o ≡ inl kube → IsNamed kube
  unfolding from_env
  from_env-IsNamed kube h = elim (Bool-cases (str_eq (o.getenv "IMAGE") "")) [
    | inl e ↦ absurd (ground (arith, h, e))
    | inr e ↦
        let named : IsNamed (record {
          ns =
              if str_eq (o.getenv "POD_NAMESPACE") ""
              then "ratelimiter"
              else o.getenv "POD_NAMESPACE";
          image = o.getenv "IMAGE";
        }) =
          (e, ns_named (o.getenv "POD_NAMESPACE")) in
        subst IsNamed (ground (arith, h, e)) named
  ]

  new_kube-IsNamed : (kube : Kube) → new_kube o ≡ inl kube → IsNamed kube
  unfolding new_kube
  new_kube-IsNamed kube h = from_env-IsNamed kube (ground (arith, h))

  pub loadgen-Ran :
      (name : String) (value : String → String)
      → str_eq name "loadgen" ≡ true
      → Ran o name value (run_loadgen o (value "addr") (value "workers") (value "coordinator"))
  unfolding run_loadgen
  loadgen-Ran name value known = by_kube (new_kube o) refl
    where
      by_kube :
          (r : Kube ⊎ String)
          → new_kube o ≡ r
          → Ran o name value (elim r as (λ _. Served) [
            | inr e ↦ returned (some e)
            | inl kube ↦
                let s = loadgen kube (value "workers") (value "coordinator") in
                o.listen (value "addr") s (routes s)
          ])
      by_kube (inr e) h = fails e (no_kube e known h)
      by_kube (inl kube) h =
          listen-Ran name value (value "addr")
            (loadgen kube (value "workers") (value "coordinator"))
            (loadgen_ready kube known h (new_kube-IsNamed kube h)) _ refl
