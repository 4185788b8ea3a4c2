-- ===== src/Config.antt =====
-- internal/config/config.go: the coordinator's configuration and its validation.
-- A tenant's limit is a float64 in the source; here it is a whole number of thousandths of a token
-- per second, of either sign, as in Bucket.antt. Reading the file and the strict YAML decoder are
-- outside the repository: `load` takes what the first returned, and the second as a parameter.
pub mod Validation
mod Examples
use ratelimiter.Base.{
  ℕ, ◌+◌, ◌*◌, String, List, [], ◌∷◌, Option, none, some, ltb, if◌then◌else◌, length, ◌==◌,
}
use ratelimiter.Base.Int.{ℤ, pos, negsuc, is_below, to_nat}

-- `BurstSeconds`
abbrev pub burst_seconds : ℕ
burst_seconds = 1

pub record Lease : Type 0 where
  pub size : ℤ
  pub duration_ms : ℤ

-- `tenants` maps a tenant to its limit.
pub record Config : Type 0 where
  pub lease : Lease
  pub tenants : List (String × ℤ)

-- The ways in which `Load` fails, with what their messages show.
pub data LoadError : Type 0 where
  read_failed : LoadError
  parsing_failed : LoadError
  bad_size : ℤ → LoadError
  bad_duration : ℤ → LoadError
  no_tenants : LoadError
  bad_rate : String → ℤ → LoadError

pub data LoadResult : Type 0 where
  loaded : Config → LoadResult
  failed : LoadError → LoadResult

-- The loop over the tenants: the first rate that is not above 0, in the order of the iteration.
unfoldable pub first_bad_rate : List (String × ℤ) → Option LoadError
first_bad_rate [] = none
first_bad_rate ((name, rate) ∷ tenants) =
    if is_below rate 1 then some (bad_rate name rate) else first_bad_rate tenants

-- What `Load` does with a decoded configuration.
unfoldable pub validate : Config → LoadResult
validate c =
    if is_below c.lease.size 1
    then failed (bad_size c.lease.size)
    else if is_below c.lease.duration_ms 100
    then failed (bad_duration c.lease.duration_ms)
    else if length c.tenants == 0
    then failed no_tenants
    else elim (first_bad_rate c.tenants) [ some e ↦ failed e | none ↦ loaded c ]

-- `Load`, over what `os.ReadFile` returned and the decoder `yaml.UnmarshalStrict`.
unfoldable pub load : (String → Option Config) → Option String → LoadResult
load unmarshal none = failed read_failed
load unmarshal (some raw) = elim (unmarshal raw) [
  | none ↦ failed parsing_failed
  | some c ↦ validate c
]

-- `LeaseDuration`, in nanoseconds, for a duration that is not negative.
unfoldable pub lease_duration : Config → ℕ
lease_duration c = to_nat c.lease.duration_ms * 1_000_000
