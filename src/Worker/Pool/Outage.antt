-- ===== src/Worker/Pool/Outage.antt =====
-- What a renewal does to the pool: grants, zero grants, unknown tenants, and failures in a row.
use ratelimiter.Base.{
  ℕ, zero, suc, ◌+◌, ◌-◌, ◌*◌, ◌^◌, ◌≤◌, ◌<◌, min, ◌≡◌, refl, arith, List, [], ◌∷◌, length, ap, ◌∙◌,
  sym, mul_mono,
}
use native.Mathlib.Nat.{one-le-pow, pow-suc}
use ratelimiter.Worker.Pool.{Pool, failed, finish, next_backoff, jittered, backoff_min, backoff_max}

-- A draw of the generator: `rand.Float64()` is below 1.
abbrev pub IsDraw : ℕ → Type 0
IsDraw draw = draw < 2 ^ 53

-- The jitter keeps a backoff within a quarter of itself, either way.
pub jittered_bounds :
    (b draw : ℕ) → IsDraw draw → (3 * b ≤ 4 * jittered b draw + 3) × (4 * jittered b draw ≤ 5 * b)
unfolding jittered
jittered_bounds b draw h = omega (arith, mul_mono b draw (2 ^ 53 - 1))

-- The backoff after `n` failures in a row, from none: 250 ms doubled n - 1 times, up to 2 s.
pub backoff_after : ℕ → ℕ
backoff_after zero = 0
backoff_after (suc n) = next_backoff (backoff_after n)

backoff_after-zero : backoff_after 0 ≡ 0
backoff_after-zero = unfold backoff_after in refl

backoff_after-suc : (n : ℕ) → backoff_after (suc n) ≡ next_backoff (backoff_after n)
backoff_after-suc n = unfold backoff_after in refl

next_backoff-min : (x : ℕ) → 0 < x → next_backoff (min x backoff_max) ≡ min (2 * x) backoff_max
unfolding next_backoff
next_backoff-min x h = ground arith

double_pos : (n : ℕ) → 0 < backoff_min * 2 ^ n
double_pos n = omega (arith, one-le-pow n 2 (omega arith))

-- The backoff doubles with each failure, from 250 ms on, until it reaches 2 s.
pub backoff_after_lem : (n : ℕ) → backoff_after (suc n) ≡ min (backoff_min * 2 ^ n) backoff_max
unfolding backoff_after
backoff_after_lem zero = unfold next_backoff in refl
backoff_after_lem (suc n) =
    ap next_backoff (backoff_after_lem n)
    ∙ next_backoff-min (backoff_min * 2 ^ n) (double_pos n)
    ∙ ap (λ (m : ℕ). min m backoff_max) (omega (arith, pow-suc 2 n))

-- The pool after renewals that fail, each at its own time and with its own random draw.
pub fail_all : Pool → List (ℕ × ℕ) → Pool
fail_all p [] = p
fail_all p ((now, draw) ∷ fails) = fail_all (finish p now failed draw).0 fails

finish-failed :
    (p : Pool) (now draw : ℕ)
    → ((finish p now failed draw).0.backoff ≡ next_backoff p.backoff)
      × ((finish p now failed draw).0.next_try ≡ now + jittered (next_backoff p.backoff) draw)
finish-failed p now draw = unfold finish in (refl, refl)

fail_all-backoff :
    (n : ℕ) (p : Pool) (fails : List (ℕ × ℕ))
    → p.backoff ≡ backoff_after n
    → (fail_all p fails).backoff ≡ backoff_after (n + length fails)
unfolding fail_all
fail_all-backoff n p [] h = h ∙ ap backoff_after (omega arith)
fail_all-backoff n p ((now, draw) ∷ fails) h =
    fail_all-backoff (suc n) (finish p now failed draw).0 fails
      ((finish-failed p now draw).0 ∙ ap next_backoff h ∙ unfold backoff_after in refl)
    ∙ ap backoff_after (omega arith)

-- The coordinator cannot be reached: after n + 1 failures in a row the backoff is 250 ms doubled n
-- times, at most 2 s, and the next try is held back by that much after the last failure, give or
-- take a quarter (rounded down by at most a nanosecond).
pub fail_all_lem :
    (p : Pool) (fails : List (ℕ × ℕ)) (now draw : ℕ)
    → p.backoff ≡ 0
    → IsDraw draw
    → let q = (finish (fail_all p fails) now failed draw).0 in
      let b = min (backoff_min * 2 ^ length fails) backoff_max in
      (q.backoff ≡ b) × (4 * now + 3 * b ≤ 4 * q.next_try + 3) × (4 * q.next_try ≤ 4 * now + 5 * b)
fail_all_lem p fails now draw h k =
    ground (arith, finish-failed (fail_all p fails) now draw, reached, jittered_bounds b draw k)
  where
    b : ℕ
    b = min (backoff_min * 2 ^ length fails) backoff_max

    reached : next_backoff (fail_all p fails).backoff ≡ b
    reached =
        ap next_backoff (fail_all-backoff 0 p fails (h ∙ sym backoff_after-zero))
        ∙ ap (λ (n : ℕ). next_backoff (backoff_after n)) (omega arith)
        ∙ sym (backoff_after-suc (length fails))
        ∙ backoff_after_lem (length fails)
