-- ===== src/Worker/Pool/Grants.antt =====
-- What an answer of the coordinator does to a pool, and how long leased tokens live.
use ratelimiter.Base.{ℕ, ◌+◌, ◌≤◌, ◌<◌, max, ◌≡◌, true, false, none, arith}
use ratelimiter.Worker.Pool.{
  Pool, Grant, Reply, grant, no_such_tenant, failed, admit, unknown, decided, begin, finish,
  min_retry_after, unknown_tenant_ttl,
}

-- Every renewal that ends clears the flag, closes the channel that was open, and forgets it; only a
-- failure counts as an error.
pub finish_closes :
    (p : Pool) (now : ℕ) (reply : Reply) (draw : ℕ)
    → let (q, closed, counted) = finish p now reply draw in
      (q.renewing ≡ false)
      × (q.renew_done ≡ none)
      × (closed ≡ p.renew_done)
      × ((counted ≡ true → reply ≡ failed) × (reply ≡ failed → counted ≡ true))
unfolding finish
finish_closes p now (grant g) draw = ground arith
finish_closes p now no_such_tenant draw = ground arith
finish_closes p now failed draw = ground arith

-- A grant of no token leaves tokens and expiry, ends a backoff, and holds the next renewal back by
-- the coordinator's hint, at least 200 ms: until then none is started, whatever is asked.
pub zero_grant_paces :
    (p : Pool) (now later ttl hint cost chan draw : ℕ)
    → later < now + max hint min_retry_after
    → let q =
        (finish p now (grant (record { tokens = 0; ttl = ttl; retry_after = hint })) draw).0 in
      (q.tokens ≡ p.tokens)
      × (q.expiry ≡ p.expiry)
      × (q.backoff ≡ 0)
      × (q.next_try ≡ now + max hint min_retry_after)
      × ((begin q later cost chan).1 ≡ false)
unfolding finish begin
zero_grant_paces p now later ttl hint cost chan draw h = ground arith

-- After a 404 of the coordinator the tenant's requests are answered so for 10 s, with no renewal.
pub not_found_cached :
    (p : Pool) (now later cost chan draw : ℕ)
    → later < now + unknown_tenant_ttl
    → let q = (finish p now no_such_tenant draw).0 in
      begin q later cost chan ≡ (q, false, decided unknown)
unfolding finish begin
not_found_cached p now later cost chan draw h = ground arith

-- A grant is added to the tokens at hand, expired or not, and from then on a request of any cost up
-- to the sum is admitted until the grant expires, unless the tenant is marked unknown.
pub grant_admits :
    (p : Pool) (g : Grant) (now later cost chan draw : ℕ)
    → 0 < g.tokens
    → 0 < cost
    → p.unknown_until ≤ later
    → later < now + g.ttl
    → cost ≤ p.tokens + g.tokens
    → (begin (finish p now (grant g) draw).0 later cost chan).2 ≡ decided admit
unfolding finish begin
grant_admits p g now later cost chan draw h k l m n = ground arith

-- A request that costs more than a pool holds renews it above its watermark, so that a whole grant
-- is added to up to `cost - 1` tokens.
pub costly_request_overfills :
    (p : Pool) (g : Grant) (now later cost chan draw : ℕ)
    → p.renewing ≡ false
    → p.unknown_until ≤ now
    → p.next_try ≤ now
    → now < p.expiry
    → p.tokens < cost
    → 0 < g.tokens
    → let (q, need, _) = begin p now cost chan in
      (need ≡ true) × ((finish q later (grant g) draw).0.tokens ≡ p.tokens + g.tokens)
unfolding finish begin
costly_request_overfills p g now later cost chan draw h k l m n o = ground arith
