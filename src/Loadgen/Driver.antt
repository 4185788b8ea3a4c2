-- ===== src/Loadgen/Driver.antt =====
-- internal/loadgen/driver.go: what the load driver records of the responses of one tenant.
-- A latency is a whole number of microseconds, which `one` divides by 1000 into a float64 of
-- milliseconds. A key of the map Errors is "transport" or the decimal of a status code: `Failure`.
-- Every method holds the result's lock from its first line to its last, so that each is one step.
pub mod Counted
pub mod Books
pub mod Rank
pub mod Seconds
use ratelimiter.Base.{
  ℕ, zero, suc, ◌+◌, ◌-◌, ◌*◌, ◌/◌, min, String, List, [], ◌∷◌, ◌++◌, Option, none, some, Bool,
  true, false, leb, ◌==◌, if◌then◌else◌, length, get_elem?, sum_by,
}
use ratelimiter.Base.Sort.{sort}

-- RPS is in thousandths of a request per second.
pub record TenantLoad : Type 0 where
  pub tenant : String
  pub rps : ℕ
  pub concurrency : ℕ
  pub cost : ℕ

pub record SecBucket : Type 0 where
  pub admitted : ℕ
  pub rejected : ℕ
  pub errors : ℕ

pub data Failure : Type 0 where
  transport : Failure
  code : ℕ → Failure

pub record TenantResult : Type 0 where
  pub sent : ℕ
  pub admitted : ℕ
  pub admitted_tokens : ℕ
  pub rejected : ℕ
  pub client_drops : ℕ
  pub errors : List (Failure × ℕ)
  pub latencies : List ℕ
  pub buckets : List SecBucket

-- `&TenantResult{Errors: map[string]int{}}`
abbrev pub no_result : TenantResult
no_result = record {
  sent = 0;
  admitted = 0;
  admitted_tokens = 0;
  rejected = 0;
  client_drops = 0;
  errors = [];
  latencies = [];
  buckets = [];
}

abbrev pub empty_sec : SecBucket
empty_sec = record { admitted = 0; rejected = 0; errors = 0 }

-- What came of a request: an error of the transport, or a response with its status code.
pub data Response : Type 0 where
  lost : Response
  answered : (code : ℕ) → Response

abbrev pub same_failure : Failure → Failure → Bool
same_failure transport transport = true
same_failure (code a) (code b) = a == b
same_failure _ _ = false

-- `r.Errors[key]++`, where a missing key counts 0.
unfoldable pub count_error : Failure → List (Failure × ℕ) → List (Failure × ℕ)
count_error key [] = (key, 1) ∷ []
count_error key ((name, n) ∷ rest) =
    let kept = (name, n) ∷ count_error key rest in
    if same_failure name key then (name, n + 1) ∷ rest else kept

-- The loop that appends empty buckets until there is one for `sec`, and the update of that one.
unfoldable pub bump : (SecBucket → SecBucket) → ℕ → List SecBucket → List SecBucket
bump f zero [] = f empty_sec ∷ []
bump f zero (b ∷ bs) = f b ∷ bs
bump f (suc sec) [] = empty_sec ∷ bump f sec []
bump f (suc sec) (b ∷ bs) = b ∷ bump f sec bs

abbrev pub add_admitted : SecBucket → SecBucket
add_admitted b = record b { admitted = b.admitted + 1 }

abbrev pub add_rejected : SecBucket → SecBucket
add_rejected b = record b { rejected = b.rejected + 1 }

abbrev pub add_error : SecBucket → SecBucket
add_error b = record b { errors = b.errors + 1 }

unfoldable pub record_error : TenantResult → ℕ → Failure → TenantResult
unfolding count_error bump
record_error r sec key = record r {
  errors = count_error key r.errors;
  buckets = bump add_error sec r.buckets;
}

unfoldable pub record_admitted : TenantResult → ℕ → ℕ → ℕ → TenantResult
unfolding bump
record_admitted r sec latency cost = record r {
  admitted = r.admitted + 1;
  admitted_tokens = r.admitted_tokens + cost;
  buckets = bump add_admitted sec r.buckets;
  latencies = r.latencies ++ latency ∷ [];
}

unfoldable pub record_rejected : TenantResult → ℕ → ℕ → TenantResult
unfolding bump
record_rejected r sec latency = record r {
  rejected = r.rejected + 1;
  buckets = bump add_rejected sec r.buckets;
  latencies = r.latencies ++ latency ∷ [];
}

-- `record`
unfoldable pub record_response : TenantResult → ℕ → Response → ℕ → ℕ → TenantResult
record_response r sec lost latency cost = record_error r sec transport
record_response r sec (answered status) latency cost =
    if status == 200
    then record_admitted r sec latency cost
    else if status == 429
    then record_rejected r sec latency
    else record_error r sec (code status)

-- `Percentile`: 0 without latencies, and `none` where the index would be out of range. The code
-- calls it with 50 and 99 only, for which `int(p/100*float64(n-1))` is the exact quotient: 50/100
-- is exact in float64, and 0.99 is so near to 99/100 that no product with an n below 10^13 is
-- rounded over or under an integer. For other percentiles, as 29, it may be one more.
unfoldable pub percentile : TenantResult → ℕ → Option ℕ
unfolding sort
percentile r p =
    let n = length r.latencies in
    if n == 0 then some 0 else get_elem? (sort r.latencies) (p * (n - 1) / 100)

-- `ErrorCount`
unfoldable pub error_count : TenantResult → ℕ
error_count r = sum_by (λ (name, n). n) r.errors

-- `xs[from:to]`
abbrev pub slice {ℓ} : {A : Type ℓ} → List A → ℕ → ℕ → List A
slice xs from zero = []
slice [] from (suc to) = []
slice (x ∷ xs) zero (suc to) = x ∷ slice xs zero to
slice (x ∷ xs) (suc from) (suc to) = slice xs from to

-- `WindowRate`, as the fraction that it divides out: a sum over a number of seconds, 0/1 if the
-- window is empty. A window starts at no negative second here; at one the source panics.
unfoldable pub window_rate : TenantResult → ℕ → ℕ → (SecBucket → ℕ) → ℕ × ℕ
window_rate r from to metric =
    let to = min to (length r.buckets) in
    if leb to from then (0, 1) else (sum_by metric (slice r.buckets from to), to - from)
