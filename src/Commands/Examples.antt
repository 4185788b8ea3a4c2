-- ===== src/Commands/Examples.antt =====
-- Tests and witnesses of the subcommands.
use ratelimiter.Base.{
  ◌≡◌, ◌≢◌, refl, String, List, [], ◌∷◌, none, some, true, str_eq, if◌then◌else◌,
}
use ratelimiter.Base.Int.{pos}
use ratelimiter.Base.Dict.{lookup}
use ratelimiter.Config.{Config, LoadError}
use ratelimiter.Commands.{
  serves_on, returned, values, asked_help, Outside, serving, exited, main, worker_flags,
}
use ratelimiter.Commands.Ends.{Ends, main-Ends}

abbrev one_tenant : Config
one_tenant = record {
  lease = record { size = pos 20; duration_ms = pos 250 };
  tenants = ("a", pos 100_000) ∷ [];
}

value_in : List (String × String) → String → String
value_in flags name = elim (lookup name flags) [ some v ↦ v | none ↦ "" ]

serves_on_not_returned : serves_on ≢ returned none
serves_on_not_returned h = cc h

-- A machine on which the configuration file is there and everything serves on. Flags keep their
-- defaults, unless the first argument is -h.
abbrev outside : Outside
outside = record {
  parse = λ flags rest. elim rest [ [] ↦ values (value_in flags) | x ∷ xs ↦ asked_help ];
  hostname = "worker-1";
  getenv = λ name. "";
  read_file = λ path. if str_eq path "/etc/ratelim/config.yaml" then some "tenants" else none;
  unmarshal = λ raw. some one_tenant;
  load_text = λ e. "error";
  quoted = λ text. text;
  started = 0;
  now = 0;
  in_cluster = true;
  kubeconfig = none;
  client_set = none;
  listen = λ addr s rs. serves_on;
  listen_fails = λ addr s rs. serves_on_not_returned;
}

coordinator_url_default : lookup "coordinator" worker_flags ≡ some "http://coordinator:8081"
unfolding lookup
coordinator_url_default = refl

main-Ends_example : Ends outside ("ratelim" ∷ "coordinator" ∷ []) serving
unfolding main value_in lookup ratelimiter.Config.validate ratelimiter.Config.first_bad_rate
main-Ends_example = main-Ends outside ("ratelim" ∷ "coordinator" ∷ [])

-- The load generator without an image fails.
no_image : main outside ("ratelim" ∷ "loadgen" ∷ []) ≡ exited 1
unfolding main
no_image = refl

no_arguments : main outside ("ratelim" ∷ []) ≡ exited 2
unfolding main
no_arguments = refl
