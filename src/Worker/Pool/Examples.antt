-- ===== src/Worker/Pool/Examples.antt =====
-- The theorems on a pool at concrete pools, and runs of its critical sections.
use ratelimiter.Base.{
  ◌+◌, ◌*◌, ◌/◌, ◌^◌, ◌≤◌, ◌<◌, min, max, ◌≡◌, refl, ◌↔◌, ◌⊎◌, inr, true, false, some, arith, List,
  [], ◌∷◌,
}
use ratelimiter.Worker.Pool.{
  Pool, Grant, grant, failed, empty_pool, admit, decided, waits, begin, resume, finish,
  should_renew, backoff_min, backoff_max,
}
use ratelimiter.Worker.Pool.Admission.{begin_admits_iff}
use ratelimiter.Worker.Pool.Renewal.{should_renew_iff, begin_not_starved}
use ratelimiter.Worker.Pool.Outage.{fail_all, fail_all_lem}
use ratelimiter.Worker.Pool.Grants.{grant_admits, costly_request_overfills}
use ratelimiter.Worker.Pool.History.{
  act, Section, begins, resumes, renews, play, play_spends, granted_all,
}

-- Four tokens of a grant of ten, until time 2000.
abbrev some_left : Pool
some_left = record empty_pool { tokens = 4; expiry = 2_000; last_grant = 10 }

abbrev ten : Grant
ten = record { tokens = 10; ttl = 2_000; retry_after = 0 }

abbrev sections : List Section
sections =
    begins 100 3 0 ∷ begins 110 3 1 ∷ renews 120 (grant ten) 0 ∷ resumes 130 5 ∷ begins 140 5 2 ∷ []

abbrev outage : List Section
outage = begins 2_000 1 0 ∷ renews 2_100 failed 7 ∷ begins 2_200 2 1 ∷ resumes 2_300 1 ∷ []

-- A first request on an empty pool starts a renewal and waits for it.
cold_start :
    begin empty_pool 50 1 3
    ≡ (record empty_pool { renewing = true; renew_done = some 3 }, true, waits 3)
unfolding begin
cold_start = refl

sections_spend : (play some_left sections).1 ≡ 13
unfolding play act begin resume finish
sections_spend = refl

begin_admits_iff_example :
    ((begin some_left 100 3 0).2 ≡ decided admit)
    ↔ ((some_left.unknown_until ≤ 100) × (3 ≤ some_left.tokens) × (100 < some_left.expiry))
begin_admits_iff_example = begin_admits_iff some_left 100 3 0 (omega arith)

should_renew_iff_example : (should_renew some_left 60 false ≡ true) ↔ (
    (some_left.renewing ≡ false)
    × (some_left.next_try ≤ 60)
    × ((false ≡ true)
        ⊎ (some_left.last_grant ≡ 0)
        ⊎ (some_left.tokens < max 1 (some_left.last_grant / 5))))
should_renew_iff_example = should_renew_iff some_left 60 false

-- The four tokens expire at 2000, so that one cannot be had at 2500.
begin_not_starved_example : (begin some_left 2_500 1 5).0.renewing ≡ true
begin_not_starved_example =
    begin_not_starved some_left 2_500 1 5 (omega arith) (omega arith) (omega arith)
      (inr (omega arith))

fail_all_lem_example :
    let q = (finish (fail_all empty_pool ((0, 0) ∷ (9, 5) ∷ [])) 20 failed 7).0 in
    let b = min (backoff_min * 2 ^ 2) backoff_max in
    (q.backoff ≡ b) × (4 * 20 + 3 * b ≤ 4 * q.next_try + 3) × (4 * q.next_try ≤ 4 * 20 + 5 * b)
fail_all_lem_example = fail_all_lem empty_pool ((0, 0) ∷ (9, 5) ∷ []) 20 7 refl (omega arith)

grant_admits_example : (begin (finish some_left 10 (grant ten) 0).0 500 14 1).2 ≡ decided admit
grant_admits_example =
    grant_admits some_left ten 10 500 14 1 0 (omega arith) (omega arith) (omega arith) (omega arith)
      (omega arith)

-- With leases of 10 a pool comes to hold 14 tokens, more than 1.2 leases.
costly_request_overfills_example :
    let q = (begin some_left 60 5 1).0 in
    ((begin some_left 60 5 1).1 ≡ true)
    × ((finish q 70 (grant ten) 0).0.tokens ≡ some_left.tokens + ten.tokens)
costly_request_overfills_example =
    costly_request_overfills some_left ten 60 70 5 1 0 refl (omega arith) (omega arith)
      (omega arith) (omega arith) (omega arith)

play_spends_example :
    (play some_left sections).0.tokens + (play some_left sections).1
    ≤ some_left.tokens + granted_all sections
play_spends_example = play_spends some_left sections
