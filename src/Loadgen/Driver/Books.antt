-- ===== src/Loadgen/Driver/Books.antt =====
-- The counts of a tenant's result after a history of responses.
use ratelimiter.Base.{ℕ, ◌*◌, ◌≡◌, refl, ◌∙◌, List, [], ◌∷◌, arith, sum_by}
use ratelimiter.Loadgen.Driver.{TenantResult, no_result, Response, record_response, error_count}
use ratelimiter.Loadgen.Driver.Counted.{
  is_admitted, is_rejected, is_error, IsBalanced, Counted, record_response_lem,
}

-- One recorded response: its second, what came of it, its latency and its cost.
pub record Recorded : Type 0 where
  pub sec : ℕ
  pub response : Response
  pub latency : ℕ
  pub cost : ℕ

-- A history of recorded responses.
abbrev pub record_all : TenantResult → List Recorded → TenantResult
record_all r [] = r
record_all r (x ∷ xs) = record_all (record_response r x.sec x.response x.latency x.cost) xs

pub no_result-IsBalanced : IsBalanced no_result
unfolding error_count
no_result-IsBalanced = record { admitted = refl; rejected = refl; errors = refl; latencies = refl }

abbrev Adds : TenantResult → List Recorded → Type 0
Adds r xs =
    Counted r (record_all r xs) (sum_by (λ x. is_admitted x.response) xs)
      (sum_by (λ x. is_rejected x.response) xs) (sum_by (λ x. x.cost * is_admitted x.response) xs)
      (sum_by (λ x. is_error x.response) xs)

record_all_lem : (r : TenantResult) (xs : List Recorded) → Adds r xs
record_all_lem r [] = record {
  admits = omega arith;
  rejects = omega arith;
  pays = omega arith;
  fails = omega arith;
  sends = refl;
  drops = refl;
  balanced = λ s. s;
}
record_all_lem r (x ∷ xs) =
    let head = record_response_lem r x.sec x.response x.latency x.cost in
    let tail = record_all_lem (record_response r x.sec x.response x.latency x.cost) xs in
    record {
      admits = omega (arith, head.admits, tail.admits);
      rejects = omega (arith, head.rejects, tail.rejects);
      pays = omega (arith, head.pays, tail.pays);
      fails = omega (arith, head.fails, tail.fails);
      sends = tail.sends ∙ head.sends;
      drops = tail.drops ∙ head.drops;
      balanced = λ s. tail.balanced (head.balanced s);
    }

-- After any sequence of responses recorded in a new result, for whatever seconds: Admitted counts
-- those of status 200 and AdmittedTokens their costs, Rejected those of status 429, the map Errors
-- all others, each total is the sum over the per-second buckets, and there is one latency for each
-- admitted or rejected response.
pub records_balance :
    (xs : List Recorded)
    → let r = record_all no_result xs in
      (r.admitted ≡ sum_by (λ x. is_admitted x.response) xs)
      × (r.admitted_tokens ≡ sum_by (λ x. x.cost * is_admitted x.response) xs)
      × (r.rejected ≡ sum_by (λ x. is_rejected x.response) xs)
      × (error_count r ≡ sum_by (λ x. is_error x.response) xs)
      × IsBalanced r
unfolding error_count
records_balance xs =
    let all = record_all_lem no_result xs in
    (
      omega (arith, all.admits),
      omega (arith, all.pays),
      omega (arith, all.rejects),
      omega (arith, all.fails),
      all.balanced no_result-IsBalanced,
    )
