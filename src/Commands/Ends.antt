-- ===== src/Commands/Ends.antt =====
-- How the process of cmd/ratelim/main.go ends, and what it serves if it does not.
use ratelimiter.Base.{
  ◌<◌, length, ◌≡◌, refl, String, List, [], ◌∷◌, true, false, inl, inr, arith, str_eq, Bool-cases,
}
use ratelimiter.Commands.{
  Backend, routes, Served, serves_on, values, asked_help, refused_flags, Parsed, Outside, Exit,
  serving, exited, fatal, with_flags, coordinator_flags, worker_flags, loadgen_flags, subcommand,
  main,
}
use ratelimiter.Commands.Started.{
  IsReady, IsFailure, Ran, listens, fails, load-Ran, worker-Ran, loadgen-Ran,
}

-- The flags that a subcommand has.
pub data IsFlags (name : String) : List (String × String) → Type 0 where
  of_coordinator : str_eq name "coordinator" ≡ true → IsFlags name coordinator_flags
  of_worker : str_eq name "worker" ≡ true → IsFlags name worker_flags
  of_loadgen : str_eq name "loadgen" ≡ true → IsFlags name loadgen_flags

-- The ways in which the process ends: with status 0 only if a subcommand was asked for its help, with
-- status 2 on no subcommand or on flags that are refused, with status 1 on an unknown subcommand or
-- an error of a `Run`, or never, when a server that is ready serves on.
pub data Ends (o : Outside) : List String → Exit → Type 0 where
  no_subcommand : (args : List String) → length args < 2 → Ends o args (exited 2)
  unknown_subcommand :
      (program name : String) (rest : List String)
      → str_eq name "coordinator" ≡ false
      → str_eq name "worker" ≡ false
      → str_eq name "loadgen" ≡ false
      → Ends o (program ∷ name ∷ rest) (exited 1)
  helped :
      (program name : String) (rest : List String) (flags : List (String × String))
      → IsFlags name flags
      → o.parse flags rest ≡ asked_help
      → Ends o (program ∷ name ∷ rest) (exited 0)
  misused :
      (program name : String) (rest : List String) (flags : List (String × String))
      → IsFlags name flags
      → o.parse flags rest ≡ refused_flags
      → Ends o (program ∷ name ∷ rest) (exited 2)
  failed :
      (program name : String) (rest : List String) (flags : List (String × String))
      (value : String → String) (e : String)
      → IsFlags name flags
      → o.parse flags rest ≡ values value
      → IsFailure o name value e
      → Ends o (program ∷ name ∷ rest) (exited 1)
  serves :
      (program name : String) (rest : List String) (flags : List (String × String))
      (value : String → String) (addr : String) (s : Backend)
      → IsFlags name flags
      → o.parse flags rest ≡ values value
      → IsReady o name value addr s
      → o.listen addr s (routes s) ≡ serves_on
      → Ends o (program ∷ name ∷ rest) serving

module _ (o : Outside) where
  fatal-Ends :
      {r : Served} (program name : String) (rest : List String) (flags : List (String × String))
      (value : String → String)
      → IsFlags name flags
      → o.parse flags rest ≡ values value
      → Ran o name value r
      → Ends o (program ∷ name ∷ rest) (fatal r)
  unfolding fatal
  fatal-Ends program name rest flags value known h (listens addr s ready e) =
      serves program name rest flags value addr s known h ready e
  fatal-Ends program name rest flags value known h (fails e why) =
      failed program name rest flags value e known h why

  with_flags-Ends :
      (program name : String) (rest : List String) (flags : List (String × String))
      (run : (String → String) → Served)
      → IsFlags name flags
      → ((value : String → String) → Ran o name value (run value))
      → Ends o (program ∷ name ∷ rest) (with_flags o flags rest run)
  unfolding with_flags
  with_flags-Ends program name rest flags run known ran = by_parse (o.parse flags rest) refl
    where
      by_parse :
          (p : Parsed)
          → o.parse flags rest ≡ p
          → Ends o (program ∷ name ∷ rest) (elim p as (λ _. Exit) [
            | values value ↦ fatal (run value)
            | asked_help ↦ exited 0
            | refused_flags ↦ exited 2
          ])
      by_parse (values value) h = fatal-Ends program name rest flags value known h (ran value)
      by_parse asked_help h = helped program name rest flags known h
      by_parse refused_flags h = misused program name rest flags known h

  subcommand-Ends :
      (program name : String) (rest : List String)
      → Ends o (program ∷ name ∷ rest) (subcommand o name rest)
  unfolding subcommand
  subcommand-Ends program name rest = elim (Bool-cases (str_eq name "coordinator")) [
    | inl c ↦ rw c (
        with_flags-Ends program name rest coordinator_flags _ (of_coordinator c)
          (λ value. load-Ran o name value c))
    | inr c ↦ rw c (elim (Bool-cases (str_eq name "worker")) [
      | inl w ↦ rw w (
          with_flags-Ends program name rest worker_flags _ (of_worker w)
            (λ value. worker-Ran o name value w))
      | inr w ↦ rw w (elim (Bool-cases (str_eq name "loadgen")) [
        | inl l ↦ rw l (
            with_flags-Ends program name rest loadgen_flags _ (of_loadgen l)
              (λ value. loadgen-Ran o name value l))
        | inr l ↦ rw l (unknown_subcommand program name rest c w l)
      ])
    ])
  ]

-- Whatever the arguments, the files, the environment and the network are, the process ends with
-- status 0 only if a known subcommand was asked for its help, with status 2 if there is no
-- subcommand or its flags are refused, with status 1 if the subcommand is unknown, the configuration
-- that its flags name is refused, there is no cluster for the load generator, or listening fails.
-- Otherwise it serves on at the address of its flags, with the backend of the subcommand: the
-- coordinator on the usable configuration that was read from the named file, a worker without tokens
-- for the named coordinator, or the load generator with an image and a namespace for the named URLs.
pub main-Ends : (o : Outside) (args : List String) → Ends o args (main o args)
unfolding main
main-Ends o [] = no_subcommand [] (omega arith)
main-Ends o (program ∷ []) = no_subcommand (program ∷ []) (omega arith)
main-Ends o (program ∷ name ∷ rest) = subcommand-Ends o program name rest
