-- ===== src/Worker/Replica/Budget.antt =====
-- No step of a worker makes tokens: what it takes and loses comes out of what it was granted.
use ratelimiter.Base.{ℕ, ◌+◌, ◌≤◌, ◌≡◌, refl, List, ◌∷◌, ◌++◌, arith, sum_by, sum_by-append, ap}
use ratelimiter.Worker.Pool.{Reply}
use ratelimiter.Worker.Pool.Admission.{spent, spent_at, begin_spends, resume_lem}
use ratelimiter.Worker.Pool.History.{finish_tokens}
use ratelimiter.Worker.Replica.{Replica, Call, answered, Waiter, check, wake, give_up, renewed}
use ratelimiter.Worker.Replica.Flight.{call_tokens, outstanding, check_lem}

pub check_budget :
    (r : Replica) (now cost : ℕ)
    → outstanding (check r now cost).0 + spent_at (check r now cost).1 cost ≤ outstanding r
check_budget r now cost =
    let facts = check_lem r now cost in
    rw (facts.0, facts.1, facts.4) (ground (arith, begin_spends r.pool now cost r.next_chan))

pub wake_budget :
    (r : Replica) (now cost : ℕ) (others : List Waiter)
    → outstanding (wake r now cost others).0 + spent (wake r now cost others).1 cost ≤ outstanding r
unfolding wake
wake_budget r now cost others = omega (arith, (resume_lem r.pool now cost).1)

pub give_up_budget :
    (r : Replica) (cost : ℕ) (others : List Waiter)
    → outstanding (give_up r cost others) ≡ outstanding r
unfolding give_up
give_up_budget r cost others = refl

pub renewed_budget :
    (r : Replica) (now : ℕ) (reply : Reply) (draw : ℕ) (first last : List Call)
    → r.calls ≡ first ++ answered reply ∷ last
    → outstanding (renewed r now reply draw (first ++ last)) ≤ outstanding r
unfolding renewed
renewed_budget r now reply draw first last e = omega (
  arith,
  finish_tokens r.pool now reply draw,
  ap (sum_by call_tokens) e,
  sum_by-append call_tokens first (answered reply ∷ last),
  sum_by-append call_tokens first last,
)

-- A call that changes from `c` to `d` changes what is outstanding by their tokens.
pub call_budget :
    (r : Replica) (first last : List Call) (c d : Call)
    → r.calls ≡ first ++ c ∷ last
    → outstanding (record r { calls = first ++ d ∷ last }) + call_tokens c
      ≡ outstanding r + call_tokens d
call_budget r first last c d e = omega (
  arith,
  ap (sum_by call_tokens) e,
  sum_by-append call_tokens first (c ∷ last),
  sum_by-append call_tokens first (d ∷ last),
)
