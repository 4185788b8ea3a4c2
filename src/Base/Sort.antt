-- ===== src/Base/Sort.antt =====
-- Sorting a list of numbers, and counting over it.
use Prim.Native.Nat.{ℕ, suc, ◌+◌, ◌≤◌}
use mathlib.Core.Logic.{inl, inr}
use mathlib.Core.Path.{◌≡◌, refl}
use mathlib.Core.Bool.{Bool, true, false}
use mathlib.Core.List.{List, [], ◌∷◌}
use native.Mathlib.Omega.{arith}
use ratelimiter.Base.Tests.{Bool-cases, ltb, leb, if◌then◌else◌}
use ratelimiter.Base.Lists.{length, sum_by, All}

unfoldable pub sort_in : ℕ → List ℕ → List ℕ
sort_in x [] = x ∷ []
sort_in x (y ∷ ys) = let rest = sort_in x ys in if leb x y then x ∷ y ∷ ys else y ∷ rest

unfoldable pub sort : List ℕ → List ℕ
unfolding sort_in
sort [] = []
sort (x ∷ xs) = sort_in x (sort xs)

abbrev pub at_most : ℕ → ℕ → ℕ
at_most v x = if leb x v then 1 else 0

abbrev pub below : ℕ → ℕ → ℕ
below v x = if ltb x v then 1 else 0

abbrev pub IsSorted : List ℕ → Type 0
IsSorted [] = Unit
IsSorted (x ∷ xs) = All (λ y. x ≤ y) xs × IsSorted xs

sum_by-sort_in : (f : ℕ → ℕ) (x : ℕ) (xs : List ℕ) → sum_by f (sort_in x xs) ≡ f x + sum_by f xs
unfolding sort_in
sum_by-sort_in f x [] = refl
sum_by-sort_in f x (y ∷ ys) = let ih = sum_by-sort_in f x ys in ground arith

-- Sorting keeps every count.
pub sum_by-sort : (f : ℕ → ℕ) (xs : List ℕ) → sum_by f (sort xs) ≡ sum_by f xs
unfolding sort
sum_by-sort f [] = refl
sum_by-sort f (x ∷ xs) = omega (arith, sum_by-sort_in f x (sort xs), sum_by-sort f xs)

length-sort_in : (x : ℕ) (xs : List ℕ) → length (sort_in x xs) ≡ suc (length xs)
unfolding sort_in
length-sort_in x [] = refl
length-sort_in x (y ∷ ys) = let ih = length-sort_in x ys in ground arith

pub length-sort : (xs : List ℕ) → length (sort xs) ≡ length xs
unfolding sort
length-sort [] = refl
length-sort (x ∷ xs) = omega (arith, length-sort_in x (sort xs), length-sort xs)

All-weaken : (a b : ℕ) → a ≤ b → (xs : List ℕ) → All (λ y. b ≤ y) xs → All (λ y. a ≤ y) xs
All-weaken a b h [] k = tt
All-weaken a b h (x ∷ xs) (p, k) = (omega (arith, h, p), All-weaken a b h xs k)

All-either :
    (P : ℕ → Type 0) (b : Bool) (xs ys : List ℕ)
    → All P xs
    → All P ys
    → All P (if b then xs else ys)
All-either P true xs ys h k = h
All-either P false xs ys h k = k

All-sort_in :
    (a x : ℕ) (xs : List ℕ) → a ≤ x → All (λ y. a ≤ y) xs → All (λ y. a ≤ y) (sort_in x xs)
unfolding sort_in
All-sort_in a x [] h k = (h, tt)
All-sort_in a x (y ∷ ys) h (p, k) =
    All-either (λ z. a ≤ z) (leb x y) (x ∷ y ∷ ys) (y ∷ sort_in x ys) (h, (p, k))
      (p, All-sort_in a x ys h k)

sort_in-IsSorted : (x : ℕ) (xs : List ℕ) → IsSorted xs → IsSorted (sort_in x xs)
unfolding sort_in
sort_in-IsSorted x [] s = (tt, tt)
sort_in-IsSorted x (y ∷ ys) (low, s) = elim (Bool-cases (leb x y)) [
  | inl e ↦ let h : x ≤ y = ground (arith, e) in rw (e) ((h, All-weaken x y h ys low), (low, s))
  | inr e ↦ rw (e) (All-sort_in y x ys (ground (arith, e)) low, sort_in-IsSorted x ys s)
]

pub sort-IsSorted : (xs : List ℕ) → IsSorted (sort xs)
unfolding sort
sort-IsSorted [] = tt
sort-IsSorted (x ∷ xs) = sort_in-IsSorted x (sort xs) (sort-IsSorted xs)
