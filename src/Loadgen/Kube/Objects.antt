-- ===== src/Loadgen/Kube/Objects.antt =====
-- internal/loadgen/kube.go: the objects that the load generator applies to its cluster.
-- Of the types of k8s.io/api, the fields that are set or read here. A resource quantity is its text,
-- and the texts with a port in them are written out for the two port constants.
use ratelimiter.Base.{ℕ, String, List, [], ◌∷◌, Bool, true, false}

abbrev pub coordinator_name : String
coordinator_name = "coordinator"

abbrev pub worker_name : String
worker_name = "ratelim-workers"

abbrev pub config_map_name : String
config_map_name = "ratelim-config"

abbrev pub worker_port : ℕ
worker_port = 8080

abbrev pub coordinator_port : ℕ
coordinator_port = 8081

abbrev pub worker_cpu_default : String
worker_cpu_default = "400m"

abbrev pub worker_cpu_scaling : String
worker_cpu_scaling = "50m"

-- `Kube`, less its client.
pub record Kube : Type 0 where
  pub ns : String
  pub image : String

pub record Probe : Type 0 where
  pub path : String
  pub port : ℕ
  pub period_seconds : ℕ

pub record Resources : Type 0 where
  pub cpu : String
  pub memory : String

pub record Container : Type 0 where
  pub name : String
  pub image : String
  pub args : List String
  pub port : ℕ
  pub env : List (String × String)
  pub mounts : List (String × String)
  pub requests : Resources
  pub limits : Resources
  pub readiness : Probe

pub record PodTemplate : Type 0 where
  pub labels : List (String × String)
  pub containers : List Container
  pub config_volumes : List (String × String)

pub record DeploymentSpec : Type 0 where
  pub replicas : ℕ
  pub selector : List (String × String)
  pub recreate : Bool
  pub template : PodTemplate

pub record DeploymentStatus : Type 0 where
  pub replicas : ℕ
  pub ready_replicas : ℕ
  pub updated_replicas : ℕ
  pub observed_generation : ℕ

pub record Deployment : Type 0 where
  pub name : String
  pub ns : String
  pub labels : List (String × String)
  pub generation : ℕ
  pub spec : DeploymentSpec
  pub status : DeploymentStatus

pub record Service : Type 0 where
  pub name : String
  pub ns : String
  pub selector : List (String × String)
  pub port : ℕ
  pub target_port : ℕ

-- A pod that is not being deleted has no deletion timestamp.
pub record Pod : Type 0 where
  pub name : String
  pub deleting : Bool
  pub running : Bool

-- What the API server has not filled in yet.
abbrev no_status : DeploymentStatus
no_status = record {
  replicas = 0;
  ready_replicas = 0;
  updated_replicas = 0;
  observed_generation = 0;
}

abbrev role_labels : String → List (String × String)
role_labels role = ("app", "ratelim") ∷ ("role", role) ∷ []

abbrev health : ℕ → Probe
health port = record { path = "/healthz"; port = port; period_seconds = 2 }

-- `coordinatorDeployment`
unfoldable pub coordinator_deployment : Kube → Deployment
coordinator_deployment k = record {
  name = coordinator_name;
  ns = k.ns;
  labels = role_labels "coordinator";
  generation = 0;
  status = no_status;
  spec = record {
    replicas = 1;
    selector = role_labels "coordinator";
    recreate = false;
    template = record {
      labels = role_labels "coordinator";
      containers =
          record {
            name = "coordinator";
            image = k.image;
            args =
                "coordinator" ∷ "--config" ∷ "/etc/ratelim/config.yaml" ∷ "--addr" ∷ ":8081" ∷ [];
            port = coordinator_port;
            env = [];
            mounts = ("config", "/etc/ratelim") ∷ [];
            requests = record { cpu = "50m"; memory = "64Mi" };
            limits = record { cpu = "500m"; memory = "128Mi" };
            readiness = health coordinator_port;
          }
          ∷ [];
      config_volumes = ("config", config_map_name) ∷ [];
    };
  };
}

-- `workerDeployment`
unfoldable pub worker_deployment : Kube → ℕ → String → Deployment
worker_deployment k replicas cpu = record {
  name = worker_name;
  ns = k.ns;
  labels = role_labels "worker";
  generation = 0;
  status = no_status;
  spec = record {
    replicas = replicas;
    selector = role_labels "worker";
    recreate = true;
    template = record {
      labels = role_labels "worker";
      containers =
          record {
            name = "worker";
            image = k.image;
            args = "worker" ∷ "--coordinator" ∷ "http://coordinator:8081" ∷ "--addr" ∷ ":8080" ∷ [];
            port = worker_port;
            env = ("GOMAXPROCS", "1") ∷ [];
            mounts = [];
            requests = record { cpu = "50m"; memory = "64Mi" };
            limits = record { cpu = cpu; memory = "128Mi" };
            readiness = health worker_port;
          }
          ∷ [];
      config_volumes = [];
    };
  };
}

-- `service`
unfoldable pub service : Kube → String → String → ℕ → Service
service k name role port = record {
  name = name;
  ns = k.ns;
  selector = role_labels role;
  port = port;
  target_port = port;
}
