-- ===== src/Loadgen/Driver/Counted.antt =====
-- What one response adds to a tenant's result: to its counts and to its per-second buckets.
use ratelimiter.Base.{
  ℕ, zero, suc, ◌+◌, ◌*◌, ◌≡◌, Bool-cases, inl, inr, false, refl, List, [], ◌∷◌, arith, ◌==◌,
  length, length-append, sum_by, if◌then◌else◌,
}
use ratelimiter.Loadgen.Driver.{
  Failure, transport, code, SecBucket, TenantResult, empty_sec, Response, lost, answered,
  count_error, bump, record_error, record_admitted, record_rejected, record_response, error_count,
  add_error, add_admitted, add_rejected,
}

abbrev pub is_admitted : Response → ℕ
is_admitted lost = 0
is_admitted (answered status) = if status == 200 then 1 else 0

abbrev pub is_rejected : Response → ℕ
is_rejected lost = 0
is_rejected (answered status) = if status == 429 then 1 else 0

abbrev pub is_error : Response → ℕ
is_error lost = 1
is_error (answered status) = if status == 200 then 0 else if status == 429 then 0 else 1

-- The counts, the buckets and the latencies agree.
pub record IsBalanced (r : TenantResult) : Type 0 where
  pub admitted : r.admitted ≡ sum_by (λ b. b.admitted) r.buckets
  pub rejected : r.rejected ≡ sum_by (λ b. b.rejected) r.buckets
  pub errors : error_count r ≡ sum_by (λ b. b.errors) r.buckets
  pub latencies : length r.latencies ≡ r.admitted + r.rejected

sum_by-count_error :
    (key : Failure) (errors : List (Failure × ℕ))
    → sum_by (λ (name, n). n) (count_error key errors) ≡ sum_by (λ (name, n). n) errors + 1
unfolding count_error
sum_by-count_error key [] = refl
sum_by-count_error key ((name, n) ∷ rest) = let ih = sum_by-count_error key rest in ground arith

-- An update that adds `d` to a field adds it to the field's total.
sum_by-bump :
    (f : SecBucket → SecBucket) (metric : SecBucket → ℕ) (d : ℕ)
    → metric empty_sec ≡ 0
    → ((b : SecBucket) → metric (f b) ≡ metric b + d)
    → (sec : ℕ) (bs : List SecBucket) → sum_by metric (bump f sec bs) ≡ sum_by metric bs + d
unfolding bump
sum_by-bump f metric d h k zero [] = omega (arith, h, k empty_sec)
sum_by-bump f metric d h k zero (b ∷ bs) = omega (arith, k b)
sum_by-bump f metric d h k (suc sec) [] = omega (arith, h, sum_by-bump f metric d h k sec [])
sum_by-bump f metric d h k (suc sec) (b ∷ bs) = omega (arith, sum_by-bump f metric d h k sec bs)

-- The totals of the three fields after an update that adds `a`, `j` and `e` to them.
abbrev Totals : (f : SecBucket → SecBucket) (a j e : ℕ) → Type 0
Totals f a j e =
    (sec : ℕ) (bs : List SecBucket)
    → (sum_by (λ b. b.admitted) (bump f sec bs) ≡ sum_by (λ b. b.admitted) bs + a)
      × (sum_by (λ b. b.rejected) (bump f sec bs) ≡ sum_by (λ b. b.rejected) bs + j)
      × (sum_by (λ b. b.errors) (bump f sec bs) ≡ sum_by (λ b. b.errors) bs + e)

totals :
    (f : SecBucket → SecBucket) (a j e : ℕ)
    → ((b : SecBucket) → (f b).admitted ≡ b.admitted + a)
    → ((b : SecBucket) → (f b).rejected ≡ b.rejected + j)
    → ((b : SecBucket) → (f b).errors ≡ b.errors + e)
    → Totals f a j e
totals f a j e p q k sec bs = (
  sum_by-bump f (λ b. b.admitted) a refl p sec bs,
  sum_by-bump f (λ b. b.rejected) j refl q sec bs,
  sum_by-bump f (λ b. b.errors) e refl k sec bs,
)

add_error-Totals : Totals add_error 0 0 1
add_error-Totals = totals add_error 0 0 1 (λ b. omega arith) (λ b. omega arith) (λ b. omega arith)

add_admitted-Totals : Totals add_admitted 1 0 0
add_admitted-Totals =
    totals add_admitted 1 0 0 (λ b. omega arith) (λ b. omega arith) (λ b. omega arith)

add_rejected-Totals : Totals add_rejected 0 1 0
add_rejected-Totals =
    totals add_rejected 0 1 0 (λ b. omega arith) (λ b. omega arith) (λ b. omega arith)

-- What one response adds to the result, and that the books stay balanced.
pub record Counted (r r' : TenantResult) (admitted rejected tokens errors : ℕ) : Type 0 where
  pub admits : r'.admitted ≡ r.admitted + admitted
  pub rejects : r'.rejected ≡ r.rejected + rejected
  pub pays : r'.admitted_tokens ≡ r.admitted_tokens + tokens
  pub fails : error_count r' ≡ error_count r + errors
  pub sends : r'.sent ≡ r.sent
  pub drops : r'.client_drops ≡ r.client_drops
  pub balanced : IsBalanced r → IsBalanced r'

record_error_lem :
    (r : TenantResult) (sec : ℕ) (key : Failure) → Counted r (record_error r sec key) 0 0 0 1
unfolding record_error error_count
record_error_lem r sec key = record {
  admits = omega arith;
  rejects = omega arith;
  pays = omega arith;
  fails = sum_by-count_error key r.errors;
  sends = refl;
  drops = refl;
  balanced = λ s. record {
    admitted = omega (arith, s.admitted, (add_error-Totals sec r.buckets).0);
    rejected = omega (arith, s.rejected, (add_error-Totals sec r.buckets).1);
    errors =
        omega
          (arith, s.errors, sum_by-count_error key r.errors, (add_error-Totals sec r.buckets).2);
    latencies = s.latencies;
  };
}

record_admitted_lem :
    (r : TenantResult) (sec latency cost : ℕ)
    → Counted r (record_admitted r sec latency cost) 1 0 cost 0
unfolding record_admitted error_count
record_admitted_lem r sec latency cost = record {
  admits = refl;
  rejects = omega arith;
  pays = refl;
  fails = omega arith;
  sends = refl;
  drops = refl;
  balanced = λ s. record {
    admitted = omega (arith, s.admitted, (add_admitted-Totals sec r.buckets).0);
    rejected = omega (arith, s.rejected, (add_admitted-Totals sec r.buckets).1);
    errors = omega (arith, s.errors, (add_admitted-Totals sec r.buckets).2);
    latencies = omega (arith, s.latencies, length-append r.latencies (latency ∷ []));
  };
}

record_rejected_lem :
    (r : TenantResult) (sec latency : ℕ) → Counted r (record_rejected r sec latency) 0 1 0 0
unfolding record_rejected error_count
record_rejected_lem r sec latency = record {
  admits = omega arith;
  rejects = refl;
  pays = omega arith;
  fails = omega arith;
  sends = refl;
  drops = refl;
  balanced = λ s. record {
    admitted = omega (arith, s.admitted, (add_rejected-Totals sec r.buckets).0);
    rejected = omega (arith, s.rejected, (add_rejected-Totals sec r.buckets).1);
    errors = omega (arith, s.errors, (add_rejected-Totals sec r.buckets).2);
    latencies = omega (arith, s.latencies, length-append r.latencies (latency ∷ []));
  };
}

-- One response is counted once, as what it is.
pub record_response_lem :
    (r : TenantResult) (sec : ℕ) (response : Response) (latency cost : ℕ)
    → Counted r
        (record_response r sec response latency cost)
        (is_admitted response)
        (is_rejected response)
        (cost * is_admitted response)
        (is_error response)
unfolding record_response
record_response_lem r sec lost latency cost =
    let none_paid : cost * 0 ≡ 0 = omega arith in rw none_paid (record_error_lem r sec transport)
record_response_lem r sec (answered status) latency cost = elim (Bool-cases (status == 200)) [
  | inl e ↦
      let other : (status == 429) ≡ false = ground (arith, e) in
      let paid : cost * 1 ≡ cost = omega arith in
      rw (e, other, paid) (record_admitted_lem r sec latency cost)
  | inr e ↦
      let none_paid : cost * 0 ≡ 0 = omega arith in
      elim (Bool-cases (status == 429)) [
        | inl e' ↦ rw (e, e', none_paid) (record_rejected_lem r sec latency)
        | inr e' ↦ rw (e, e', none_paid) (record_error_lem r sec (code status))
      ]
]
