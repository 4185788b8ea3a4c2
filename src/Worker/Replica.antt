-- ===== src/Worker/Replica.antt =====
-- internal/worker/limiter.go, `Check` and `renew` of one tenant as goroutines: requests that wait on a
-- channel, renewals in flight, channels closed so far, and the tenant's counters.
pub mod Flight
pub mod Steps
pub mod Budget
use ratelimiter.Base.{
  ℕ, suc, ◌+◌, Bool, true, false, Option, none, some, List, [], ◌∷◌, if◌then◌else◌,
}
use ratelimiter.Worker.Pool.{
  Pool, empty_pool, Reply, Decision, admit, reject, unknown, Outcome, decided, waits, begin, resume,
  finish,
}

-- `Counters`
pub record Counters : Type 0 where
  pub admitted : ℕ
  pub admitted_tokens : ℕ
  pub rejected : ℕ
  pub lease_calls : ℕ
  pub lease_errs : ℕ

abbrev pub no_counts : Counters
no_counts = record {
  admitted = 0;
  admitted_tokens = 0;
  rejected = 0;
  lease_calls = 0;
  lease_errs = 0;
}

-- The end of `Check`: an answer of 404 is not counted.
unfoldable pub count : Counters → Decision → ℕ → Counters
count c admit cost = record c {
  admitted = c.admitted + 1;
  admitted_tokens = c.admitted_tokens + cost;
}
count c reject cost = record c { rejected = c.rejected + 1 }
count c unknown cost = c

-- A renewal goroutine: its lease call is out, or was answered.
pub data Call : Type 0 where
  asked : Call
  answered : Reply → Call

-- A request that waits: its channel and its cost.
pub record Waiter : Type 0 where
  pub chan : ℕ
  pub cost : ℕ

pub record Replica : Type 0 where
  pub pool : Pool
  pub calls : List Call
  pub waiting : List Waiter
  pub closed : List ℕ
  pub next_chan : ℕ
  pub counts : Counters

-- A worker that has just started.
abbrev pub new_replica : Replica
new_replica = record {
  pool = empty_pool;
  calls = [];
  waiting = [];
  closed = [];
  next_chan = 0;
  counts = no_counts;
}

-- The request is answered and counted, or it waits.
unfoldable pub settle : Replica → Outcome → ℕ → Replica
unfolding count
settle r (decided d) cost = record r { counts = count r.counts d cost }
settle r (waits chan) cost = record r { waiting = record { chan = chan; cost = cost } ∷ r.waiting }

-- `Check` up to its wait or its answer; `go lm.renew(tenant, p)` adds a call, which it counts.
unfoldable pub check : Replica → ℕ → ℕ → Replica × Outcome
check r now cost =
    let (p, need, o) = begin r.pool now cost r.next_chan in
    let started : Replica =
      if need
      then record r {
        pool = p;
        calls = asked ∷ r.calls;
        next_chan = suc r.next_chan;
        counts = record r.counts { lease_calls = r.counts.lease_calls + 1 };
      }
      else record r { pool = p } in
    (settle started o cost, o)

-- A waiting request goes on: its channel was closed.
unfoldable pub wake : Replica → ℕ → ℕ → List Waiter → Replica × Decision
wake r now cost others =
    let (p, d) = resume r.pool now cost in
    (record r { pool = p; waiting = others; counts = count r.counts d cost }, d)

-- A waiting request gives up after 25 ms.
unfoldable pub give_up : Replica → ℕ → List Waiter → Replica
give_up r cost others = record r { waiting = others; counts = count r.counts reject cost }

-- `close(p.renewDone)`, if there is a channel.
unfoldable pub close : List ℕ → Option ℕ → List ℕ
close closed none = closed
close closed (some chan) = chan ∷ closed

-- The end of `renew` with an answer.
unfoldable pub renewed : Replica → ℕ → Reply → ℕ → List Call → Replica
unfolding close
renewed r now reply draw others =
    let (p, chan, counted) = finish r.pool now reply draw in
    record r {
      pool = p;
      calls = others;
      closed = close r.closed chan;
      counts =
          if counted then record r.counts { lease_errs = r.counts.lease_errs + 1 } else r.counts;
    }
