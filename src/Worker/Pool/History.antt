-- ===== src/Worker/Pool/History.antt =====
-- A pool over a whole history: the critical sections of requests and renewals in any order.
use ratelimiter.Base.{ℕ, ◌+◌, ◌≤◌, ◌<◌, ◌≡◌, refl, ◌⊎◌, arith, List, [], ◌∷◌, All}
use ratelimiter.Worker.Pool.{Pool, Reply, grant, no_such_tenant, failed, begin, resume, finish}
use ratelimiter.Worker.Pool.Admission.{spent, spent_at, begin_spends, resume_lem}

-- One critical section: the first of a request, the second of one that waited, or the end of a
-- renewal, each at its own reading of the clock.
pub data Section : Type 0 where
  begins : (now cost chan : ℕ) → Section
  resumes : (now cost : ℕ) → Section
  renews : (now : ℕ) → Reply → (draw : ℕ) → Section

-- The pool after a section, and the tokens that it admits.
unfoldable pub act : Pool → Section → Pool × ℕ
act p (begins now cost chan) = let (p', _, o) = begin p now cost chan in (p', spent_at o cost)
act p (resumes now cost) = let (p', d) = resume p now cost in (p', spent d cost)
act p (renews now reply draw) = ((finish p now reply draw).0, 0)

-- The pool after a history, and all that it admitted.
unfoldable pub play : Pool → List Section → Pool × ℕ
play p [] = (p, 0)
play p (s ∷ ss) =
    let (p', now_spent) = act p s in
    let (p'', later_spent) = play p' ss in (p'', now_spent + later_spent)

abbrev pub granted_by : Reply → ℕ
granted_by (grant g) = g.tokens
granted_by no_such_tenant = 0
granted_by failed = 0

abbrev pub granted_in : Section → ℕ
granted_in (begins now cost chan) = 0
granted_in (resumes now cost) = 0
granted_in (renews now reply draw) = granted_by reply

abbrev pub granted_all : List Section → ℕ
granted_all [] = 0
granted_all (s ∷ ss) = granted_in s + granted_all ss

pub finish_tokens :
    (p : Pool) (now : ℕ) (reply : Reply) (draw : ℕ)
    → (finish p now reply draw).0.tokens ≤ p.tokens + granted_by reply
unfolding finish
finish_tokens p now (grant g) draw = ground arith
finish_tokens p now no_such_tenant draw = omega arith
finish_tokens p now failed draw = omega arith

act_spends : (p : Pool) (s : Section) → (act p s).0.tokens + (act p s).1 ≤ p.tokens + granted_in s
unfolding act
act_spends p (begins now cost chan) = omega (arith, begin_spends p now cost chan)
act_spends p (resumes now cost) = omega (arith, (resume_lem p now cost).1)
act_spends p (renews now reply draw) = omega (arith, finish_tokens p now reply draw)

-- Over any history of a pool, the tokens admitted are at most those at hand at the start and those
-- granted since: no token is spent twice, however requests and renewals interleave.
pub play_spends :
    (p : Pool) (ss : List Section)
    → (play p ss).0.tokens + (play p ss).1 ≤ p.tokens + granted_all ss
unfolding play
play_spends p [] = omega arith
play_spends p (s ∷ ss) = omega (arith, act_spends p s, play_spends (act p s).0 ss)

-- A section that comes at `from` or later, asks for at least one token, and brings no grant.
abbrev pub IsDry : ℕ → Section → Type 0
IsDry from (begins now cost chan) = (from ≤ now) × (0 < cost)
IsDry from (resumes now cost) = (from ≤ now) × (0 < cost)
IsDry from (renews now reply draw) = granted_by reply ≡ 0

-- The pool holds nothing that can be spent at `from` or later.
abbrev IsSpent : ℕ → Pool → Type 0
IsSpent from p = (p.tokens ≡ 0) ⊎ (p.expiry ≤ from)

act-IsSpent :
    (from : ℕ) (p : Pool) (s : Section)
    → IsDry from s
    → IsSpent from p
    → IsSpent from (act p s).0 × ((act p s).1 ≡ 0)
unfolding act
act-IsSpent from p (begins now cost chan) d h = unfold begin in ground arith
act-IsSpent from p (resumes now cost) d h = unfold resume in ground arith
act-IsSpent from p (renews now (grant g) draw) d h = unfold finish in ground arith
act-IsSpent from p (renews now no_such_tenant draw) d h = unfold finish in ground arith
act-IsSpent from p (renews now failed draw) d h = unfold finish in ground arith

-- Fail closed: once the tokens of a pool are spent or expired, and while no lease call brings a grant
-- (calls fail, or grant no token), no request of a cost of at least 1 is admitted.
pub play_fails_closed :
    (from : ℕ) (p : Pool) (ss : List Section)
    → ((p.tokens ≡ 0) ⊎ (p.expiry ≤ from))
    → All (IsDry from) ss
    → (play p ss).1 ≡ 0
unfolding play
play_fails_closed from p [] h d = refl
play_fails_closed from p (s ∷ ss) h d =
    let (h', none_spent) = act-IsSpent from p s d.0 h in
    omega (arith, none_spent, play_fails_closed from (act p s).0 ss h' d.1)
