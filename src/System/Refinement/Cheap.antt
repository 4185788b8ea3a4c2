-- ===== src/System/Refinement/Cheap.antt =====
-- Runs with requests of a bounded cost.
use ratelimiter.Base.{ℕ, ◌≤◌, ◌<◌, ◌≡◌, List, some, arith}
use ratelimiter.Base.Int.{ℤ}
use ratelimiter.Worker.Pool.{effective_cost}
use ratelimiter.Worker.Server.{parse_cost}
use ratelimiter.Worker.Server.Cost.{parse_cost_bounds}
use ratelimiter.System as Whole
use ratelimiter.System.{System, SysStep, SysReach}

-- The cost of a query, if it is one.
abbrev pub IsCost : ℕ → List ℕ → Type 0
IsCost max_cost query = (z : ℤ) → parse_cost query ≡ some z → effective_cost z ≤ max_cost

abbrev pub IsCheapStep : {s s' : System} → ℕ → SysStep s s' → Type 0
IsCheapStep max_cost (Whole.request t before after n query now e h) = IsCost max_cost query
IsCheapStep max_cost _ = Unit

abbrev pub IsCheap : {s s' : System} → ℕ → SysReach s s' → Type 0
IsCheap max_cost Whole.here = Unit
IsCheap max_cost (Whole.next run step) = IsCheap max_cost run × IsCheapStep max_cost step

-- The cost of a request that was read.
pub cost_bounds :
    (query : List ℕ) (z : ℤ)
    → parse_cost query ≡ some z
    → (0 < effective_cost z) × (effective_cost z ≤ 1000)
unfolding effective_cost
cost_bounds query z e =
    let (n, same, low, high) = parse_cost_bounds query z e in rw same (ground (arith, low, high))

step-IsCheapStep : {s s' : System} (step : SysStep s s') → IsCheapStep 1000 step
step-IsCheapStep (Whole.request t before after n query now e h) =
    λ z read. (cost_bounds query z read).1
step-IsCheapStep (Whole.advance d) = tt
step-IsCheapStep (Whole.wakes t before after n first last w now e f g h) = tt
step-IsCheapStep (Whole.times_out t before after n first last w e f) = tt
step-IsCheapStep (Whole.leases t worker before after n first last now e f h) = tt
step-IsCheapStep (Whole.loses t worker before after n first last now e f h) = tt
step-IsCheapStep (Whole.strays t worker now h) = tt
step-IsCheapStep (Whole.fails t before after n first last call e f) = tt
step-IsCheapStep (Whole.renews t before after n first last reply now draw e f h) = tt
step-IsCheapStep (Whole.crashes before after n e) = tt
step-IsCheapStep Whole.starts = tt
step-IsCheapStep (Whole.restarts started) = tt

-- The handler refuses any cost above 1000.
pub run-IsCheap : {s s' : System} (run : SysReach s s') → IsCheap 1000 run
run-IsCheap Whole.here = tt
run-IsCheap (Whole.next run step) = (run-IsCheap run, step-IsCheapStep step)
