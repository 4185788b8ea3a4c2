-- ===== src/System/Nodes.antt =====
-- internal/worker: one worker with all its tenants, the limiter of limiter.go under the handlers of
-- server.go, and the goroutines of its requests and renewals.
-- A channel is named by its tenant and a number. A goroutine of `renew` counts its call when it starts.
use ratelimiter.Base.{ℕ, suc, String, str_eq, List, [], ◌∷◌, none, some, Bool, ◌==◌, if◌then◌else◌}
use ratelimiter.Base.Int.{ℤ}
use ratelimiter.Coordinator.{Server, Answer, bad_request, unknown_tenant, leased, handle_lease}
use ratelimiter.Worker.Leaser.{HttpResult, response, lease}
use ratelimiter.Worker.Pool.{Reply, effective_cost}
use ratelimiter.Worker.Replica.{Call, asked, close}
use ratelimiter.Worker.Limiter.{
  Limiter, new_limiter, check_again, check_timed_out, renew_starts, renew_ends,
}
use ratelimiter.Worker.Server.{parse_cost, status_of, Handled, status, pending, handle_check}

-- A request that waits: its channel, and its cost as it was read.
pub record Waiting : Type 0 where
  pub chan : ℕ
  pub cost : ℤ

-- The goroutines of one tenant.
pub record Flights : Type 0 where
  pub calls : List Call
  pub waiting : List Waiting
  pub closed : List ℕ
  pub next_chan : ℕ

abbrev pub no_flights : Flights
no_flights = record { calls = []; waiting = []; closed = []; next_chan = 0 }

pub record Node : Type 0 where
  pub limiter : Limiter
  pub flights : String → Flights

-- A worker that has just started.
abbrev pub new_node : Node
new_node = record { limiter = new_limiter; flights = λ tenant. no_flights }

-- A function on tenants, changed at one.
abbrev pub set_at {ℓ} : {A : Type ℓ} → String → A → (String → A) → String → A
set_at tenant a f u = if str_eq tenant u then a else f u

-- A request that is answered is gone, one that is pending waits.
abbrev pub hold : Flights → Handled → Flights
hold fl (status code) = fl
hold fl (pending chan cost) = record fl {
  waiting = record { chan = chan; cost = cost } ∷ fl.waiting;
}

-- `go lm.renew(tenant, p)`
abbrev pub launch : Flights → Flights
launch fl = record fl { calls = asked ∷ fl.calls; next_chan = suc fl.next_chan }

-- What the first section of a request leaves behind, and the renewal that it starts.
abbrev pub after_check : Node → String → Limiter × Bool × Handled → Node × Handled
after_check n tenant (lm, need, h) =
    let fl : Flights = n.flights tenant in
    (
      record {
        limiter = if need then renew_starts lm tenant else lm;
        flights = set_at tenant (hold (if need then launch fl else fl) h) n.flights;
      },
      h,
    )

-- GET /v1/check/{tenant} up to its answer or its wait.
unfoldable pub arrive : Node → String → List ℕ → ℕ → Node × Handled
unfolding handle_check renew_starts
arrive n tenant query now =
    after_check n tenant (handle_check n.limiter tenant query now (n.flights tenant).next_chan)

-- A request goes on when its channel was closed; `others` wait on.
unfoldable pub go_on : Node → String → ℤ → List Waiting → ℕ → Node × ℕ
unfolding check_again status_of
go_on n tenant cost others now =
    let (lm, d) = check_again n.limiter tenant cost now in
    (
      record {
        limiter = lm;
        flights = set_at tenant (record (n.flights tenant) { waiting = others }) n.flights;
      },
      status_of d,
    )

-- A request has waited for 25 ms.
unfoldable pub run_out : Node → String → ℤ → List Waiting → Node × ℕ
unfolding check_timed_out status_of
run_out n tenant cost others =
    let (lm, d) = check_timed_out n.limiter tenant cost in
    (
      record {
        limiter = lm;
        flights = set_at tenant (record (n.flights tenant) { waiting = others }) n.flights;
      },
      status_of d,
    )

-- The calls of a tenant are changed.
abbrev pub with_calls : Node → String → List Call → Node
with_calls n tenant calls = record n {
  flights = set_at tenant (record (n.flights tenant) { calls = calls }) n.flights;
}

-- The end of `renew`; `others` are in flight on.
unfoldable pub renew_ended : Node → String → ℕ → Reply → ℕ → List Call → Node
unfolding renew_ends close
renew_ended n tenant now reply draw others =
    let (lm, chan) = renew_ends n.limiter tenant now reply draw in
    let fl : Flights = n.flights tenant in
    record {
      limiter = lm;
      flights =
          set_at tenant (record fl { calls = others; closed = close fl.closed chan }) n.flights;
    }

-- The coordinator's answer on the wire: a status, and the body of a lease.
unfoldable pub response_of : Answer → HttpResult
response_of bad_request = response 400 none
response_of unknown_tenant = response 404 none
response_of (leased resp) = response 200 (
    some (record {
      granted = resp.granted;
      ttl_ms = resp.ttl_ms;
      retry_after_ms = resp.retry_after_ms;
    }))

-- `httpLeaser.Lease` against `handleLease`, when neither the request nor the response is lost.
unfoldable pub call_lease : Server → String → String → ℕ → Server × Reply
unfolding handle_lease response_of lease
call_lease server tenant worker now =
    let (server', a) =
      handle_lease server (some (record { tenant = tenant; worker = worker })) now in
    (server', lease (response_of a))

-- The tokens that an answer is worth: the cost of the request if it is 200.
abbrev pub worth : ℕ → ℤ → ℕ
worth code cost = if code == 200 then effective_cost cost else 0

-- The same for a request with its query; one that is pending is worth nothing yet.
abbrev pub worth_now : Handled → List ℕ → ℕ
worth_now (pending chan cost) query = 0
worth_now (status code) query = elim (parse_cost query) [ none ↦ 0 | some cost ↦ worth code cost ]
