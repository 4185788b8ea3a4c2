-- ===== src/Loadgen/Report/Verdict.antt =====
-- The verdict of `renderChecks`, by the checks.
use mathlib.Core.List.{append_assoc, append-nil}
use ratelimiter.Base.{
  ◌≡◌, refl, sym, ap, ◌∙◌, ◌↔◌, String, List, [], ◌∷◌, ◌++◌, map, Bool, true, false, ◌&&◌, All,
  arith, if◌then◌else◌,
}
use ratelimiter.Loadgen.Report.{Check, check_line, join, str_append, render_loop, render_checks}

abbrev pub all_ok : List Check → Bool
all_ok [] = true
all_ok (c ∷ cs) = c.ok && all_ok cs

-- The names of the checks that failed, in order.
abbrev pub failing : List Check → List String
failing [] = []
failing (c ∷ cs) = if c.ok then failing cs else c.name ∷ failing cs

-- What the last line must read.
abbrev pub verdict : List Check → String
verdict cs = if all_ok cs then "PASS" else str_append "FAIL: " (join "; " (failing cs))

and_true : (b : Bool) → (b && true) ≡ b
and_true true = refl
and_true false = refl

and_false : (b : Bool) → (b && false) ≡ false
and_false true = refl
and_false false = refl

branch :
    {A : Type 0} {x y z : A} (b : Bool)
    → (b ≡ true → x ≡ z)
    → (b ≡ false → y ≡ z)
    → (if b then x else y) ≡ z
branch true h k = h refl
branch false h k = k refl

pairs :
    {A B C : Type 0} {a a' : A} {b b' : B} {c c' : C}
    → a ≡ a'
    → b ≡ b'
    → c ≡ c'
    → ◌≡◌ {A = A × B × C} (a, b, c) (a', b', c')
pairs p q r = rw (p, q, r) refl

render_loop_lem :
    (cs : List Check) (written : List String) (pass : Bool) (failed : List String)
    → render_loop cs (written, pass, failed)
      ≡ (written ++ map check_line cs, pass && all_ok cs, failed ++ failing cs)
unfolding render_loop
render_loop_lem [] written pass failed =
    rw (append-nil written, append-nil failed, and_true pass) refl
render_loop_lem (c ∷ cs) written pass failed =
    branch c.ok
      (λ e.
        let whole : all_ok (c ∷ cs) ≡ all_ok cs = rw e refl in
        let names : failing (c ∷ cs) ≡ failing cs = rw e refl in
        render_loop_lem cs (written ++ check_line c ∷ []) pass failed
        ∙ pairs (append_assoc written (check_line c ∷ []) (map check_line cs))
            (ap (λ b. pass && b) (sym whole)) (ap (λ ns. failed ++ ns) (sym names)))
      (λ e.
        let whole : (pass && all_ok (c ∷ cs)) ≡ false = rw e (and_false pass) in
        let names : failing (c ∷ cs) ≡ c.name ∷ failing cs = rw e refl in
        render_loop_lem cs (written ++ check_line c ∷ []) false (failed ++ c.name ∷ [])
        ∙ pairs (append_assoc written (check_line c ∷ []) (map check_line cs)) (sym whole)
            (append_assoc failed (c.name ∷ []) (failing cs) ∙ ap (λ ns. failed ++ ns) (sym names)))

both_true : (a b : Bool) → ((a && b) ≡ true) ↔ ((a ≡ true) × (b ≡ true))
both_true true b = (λ h. (refl, h), λ h. h.1)
both_true false b = (λ h. (h, absurd (ground (arith, h))), λ h. h.0)

all_ok-All : (cs : List Check) → (all_ok cs ≡ true) ↔ All (λ c. c.ok ≡ true) cs
all_ok-All [] = (λ h. tt, λ h. refl)
all_ok-All (c ∷ cs) =
    let both = both_true c.ok (all_ok cs) in
    (λ h. ((both.0 h).0, (all_ok-All cs).0 (both.0 h).1), λ h. both.1 (h.0, (all_ok-All cs).1 h.1))

-- `renderChecks` writes the heading, one line for each check in order, an empty line and, last, PASS
-- if all checks hold and else FAIL with the names of those that do not, in order; and it returns
-- true exactly if all hold.
pub render_checks_lem :
    (cs : List Check)
    → ((render_checks cs).0 ≡ "CHECKS" ∷ map check_line cs ++ "" ∷ verdict cs ∷ [])
      × (((render_checks cs).1 ≡ true) ↔ All (λ c. c.ok ≡ true) cs)
unfolding render_checks
render_checks_lem cs = rw (render_loop_lem cs ("CHECKS" ∷ []) true []) (refl, all_ok-All cs)
