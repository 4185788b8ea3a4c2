-- ===== src/Worker/Leaser.antt =====
-- internal/worker/server.go, `httpLeaser`: the answer of the coordinator as the limiter reads it.
-- The HTTP client and the JSON decoder are outside the repository: `lease` takes what they returned.
mod Examples
use ratelimiter.Base.{ℕ, ◌*◌, Option, none, some, ◌==◌, if◌then◌else◌, Bool}
use ratelimiter.Worker.Pool.{Grant, Reply, grant, no_such_tenant, failed}

-- The body of a lease response.
pub record LeaseBody : Type 0 where
  pub granted : ℕ
  pub ttl_ms : ℕ
  pub retry_after_ms : ℕ

-- What `client.Do` and the decoder give: an error before any response (the timeout of 1500 ms
-- included), or a status code with the decoded body, `none` if it cannot be decoded.
pub data HttpResult : Type 0 where
  no_response : HttpResult
  response : ℕ → Option LeaseBody → HttpResult

unfoldable pub grant_of : LeaseBody → Grant
grant_of b = record {
  tokens = b.granted;
  ttl = b.ttl_ms * 1_000_000;
  retry_after = b.retry_after_ms * 1_000_000;
}

-- `Lease`, from the response on.
unfoldable pub lease : HttpResult → Reply
unfolding grant_of
lease no_response = failed
lease (response status body) =
    if status == 200
    then elim body [ none ↦ failed | some b ↦ grant (grant_of b) ]
    else if status == 404
    then no_such_tenant
    else failed
