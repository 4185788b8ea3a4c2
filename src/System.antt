-- ===== src/System.antt =====
-- The whole system: the coordinator with the buckets of all tenants, any number of workers with all
-- their pools, and every way in which requests, renewals, failures, crashes and the clock interleave.
-- A step is one handled request or lease call, one critical section, or one thing that the environment
-- does, of any tenant, known to the coordinator or not. A clock reading may be old: a step may use any
-- time up to the present. `admitted` counts for each tenant the cost of the requests that were
-- answered 200, and `restarts` how often the coordinator has started anew, from the same file.
pub mod Nodes
pub mod Lease
pub mod View
pub mod Follows
pub mod Refinement
pub mod Unknown
mod Examples
use ratelimiter.Base.{ℕ, suc, ◌+◌, ◌≤◌, ◌≡◌, String, List, [], ◌∷◌, ◌++◌}
use ratelimiter.Base.Int.{ℤ}
use ratelimiter.Config.{Config}
use ratelimiter.Coordinator
use ratelimiter.Coordinator.{Server}
use ratelimiter.Worker.Pool.{Reply, failed}
use ratelimiter.Worker.Replica.{Call, asked, answered}
use ratelimiter.Worker.Replica.Flight.{Has}
use ratelimiter.System.Nodes.{
  Waiting, Node, new_node, set_at, arrive, go_on, run_out, with_calls, renew_ended, call_lease,
  worth, worth_now,
}

pub record System : Type 0 where
  pub clock : ℕ
  pub server : Server
  pub nodes : List Node
  pub admitted : String → ℕ
  pub restarts : ℕ

-- A number of tokens is admitted for a tenant.
abbrev pub credit : String → ℕ → (String → ℕ) → String → ℕ
credit t n admitted = set_at t (admitted t + n) admitted

pub data SysStep (s : System) : System → Type 0 where
  -- Time passes.
  advance : (d : ℕ) → SysStep s (record s { clock = s.clock + d })
  -- A request arrives at a worker, with whatever cost in its query.
  request :
      (t : String) (before after : List Node) (n : Node) (query : List ℕ) (now : ℕ)
      → s.nodes ≡ before ++ n ∷ after
      → now ≤ s.clock
      → SysStep s (record s {
        nodes = before ++ (arrive n t query now).0 ∷ after;
        admitted = credit t (worth_now (arrive n t query now).1 query) s.admitted;
      })
  -- A waiting request goes on, since its channel was closed.
  wakes :
      (t : String) (before after : List Node) (n : Node) (first last : List Waiting) (w : Waiting)
      (now : ℕ)
      → s.nodes ≡ before ++ n ∷ after
      → (n.flights t).waiting ≡ first ++ w ∷ last
      → Has w.chan (n.flights t).closed
      → now ≤ s.clock
      → SysStep s (record s {
        nodes = before ++ (go_on n t w.cost (first ++ last) now).0 ∷ after;
        admitted = credit t (worth (go_on n t w.cost (first ++ last) now).1 w.cost) s.admitted;
      })
  -- A waiting request gives up.
  times_out :
      (t : String) (before after : List Node) (n : Node) (first last : List Waiting) (w : Waiting)
      → s.nodes ≡ before ++ n ∷ after
      → (n.flights t).waiting ≡ first ++ w ∷ last
      → SysStep s (record s {
        nodes = before ++ (run_out n t w.cost (first ++ last)).0 ∷ after;
        admitted = credit t (worth (run_out n t w.cost (first ++ last)).1 w.cost) s.admitted;
      })
  -- The coordinator handles a lease call of a worker, and its response is on the way.
  leases :
      (t worker : String) (before after : List Node) (n : Node) (first last : List Call) (now : ℕ)
      → s.nodes ≡ before ++ n ∷ after
      → (n.flights t).calls ≡ first ++ asked ∷ last
      → now ≤ s.clock
      → SysStep s (record s {
        server = (call_lease s.server t worker now).0;
        nodes =
            before
            ++ with_calls n t (first ++ answered (call_lease s.server t worker now).1 ∷ last)
              ∷ after;
      })
  -- The coordinator handles a lease call, and its response is lost.
  loses :
      (t worker : String) (before after : List Node) (n : Node) (first last : List Call) (now : ℕ)
      → s.nodes ≡ before ++ n ∷ after
      → (n.flights t).calls ≡ first ++ asked ∷ last
      → now ≤ s.clock
      → SysStep s (record s {
        server = (call_lease s.server t worker now).0;
        nodes = before ++ with_calls n t (first ++ answered failed ∷ last) ∷ after;
      })
  -- The coordinator handles a lease call that nobody waits for any more: its worker has given it up,
  -- or has crashed.
  strays :
      (t worker : String) (now : ℕ)
      → now ≤ s.clock
      → SysStep s (record s { server = (call_lease s.server t worker now).0 })
  -- A lease call fails, before or after it was answered.
  fails :
      (t : String) (before after : List Node) (n : Node) (first last : List Call) (call : Call)
      → s.nodes ≡ before ++ n ∷ after
      → (n.flights t).calls ≡ first ++ call ∷ last
      → SysStep s
          (record s { nodes = before ++ with_calls n t (first ++ answered failed ∷ last) ∷ after })
  -- A renewal ends.
  renews :
      (t : String) (before after : List Node) (n : Node) (first last : List Call) (reply : Reply)
      (now draw : ℕ)
      → s.nodes ≡ before ++ n ∷ after
      → (n.flights t).calls ≡ first ++ answered reply ∷ last
      → now ≤ s.clock
      → SysStep s
          (record s { nodes = before ++ renew_ended n t now reply draw (first ++ last) ∷ after })
  -- A worker crashes.
  crashes :
      (before after : List Node) (n : Node)
      → s.nodes ≡ before ++ n ∷ after
      → SysStep s (record s { nodes = before ++ after })
  -- A worker starts.
  starts : SysStep s (record s { nodes = new_node ∷ s.nodes })
  -- The coordinator starts anew, after a crash, from its configuration.
  restarts :
      (started : ℕ)
      → SysStep s (record s {
        server = Coordinator.new s.server.cfg started s.clock;
        restarts = suc s.restarts;
      })

-- A sequence of steps.
pub data SysReach (s : System) : System → Type 0 where
  here : SysReach s s
  next : {s1 s2 : System} → SysReach s s1 → SysStep s1 s2 → SysReach s s2

-- A system that starts at `now`, with no worker yet.
abbrev pub new_system : Config → ℕ → ℕ → System
new_system cfg started now = record {
  clock = now;
  server = Coordinator.new cfg started now;
  nodes = [];
  admitted = λ tenant. 0;
  restarts = 0;
}
