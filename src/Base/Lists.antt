-- ===== src/Base/Lists.antt =====
-- Lists measured and summed by native numbers.
use Prim.Native.Nat.{ℕ, zero, suc, ◌+◌}
use mathlib.Core.Path.{◌≡◌}
use mathlib.Core.List.{List, [], ◌∷◌, ◌++◌}
use mathlib.Core.Option.{Option, none, some}
use native.Mathlib.Omega.{arith}

module _ {ℓ} {A : Type ℓ} where
  abbrev pub length : List A → ℕ
  length [] = 0
  length (x ∷ xs) = suc (length xs)

  abbrev pub get_elem? : List A → ℕ → Option A
  get_elem? [] i = none
  get_elem? (x ∷ xs) zero = some x
  get_elem? (x ∷ xs) (suc i) = get_elem? xs i

  -- The sum of `f` over a list.
  abbrev pub sum_by : (A → ℕ) → List A → ℕ
  sum_by f [] = 0
  sum_by f (x ∷ xs) = f x + sum_by f xs

  abbrev pub All {κ} : (A → Type κ) → List A → Type κ
  All P [] = Unit
  All P (x ∷ xs) = P x × All P xs

  pub length-append : (xs ys : List A) → length (xs ++ ys) ≡ length xs + length ys
  length-append [] ys = omega arith
  length-append (x ∷ xs) ys = omega (arith, length-append xs ys)

  pub sum_by-append : (f : A → ℕ) (xs ys : List A) → sum_by f (xs ++ ys) ≡ sum_by f xs + sum_by f ys
  sum_by-append f [] ys = omega arith
  sum_by-append f (x ∷ xs) ys = omega (arith, sum_by-append f xs ys)

module _ {ℓ κ} {A : Type ℓ} (P : A → Type κ) where
  pub All-append : (xs ys : List A) → All P xs → All P ys → All P (xs ++ ys)
  All-append [] ys h k = k
  All-append (x ∷ xs) ys h k = (h.0, All-append xs ys h.1 k)

  pub All-left : (xs ys : List A) → All P (xs ++ ys) → All P xs
  All-left [] ys h = tt
  All-left (x ∷ xs) ys h = (h.0, All-left xs ys h.1)

  pub All-right : (xs ys : List A) → All P (xs ++ ys) → All P ys
  All-right [] ys h = h
  All-right (x ∷ xs) ys h = All-right xs ys h.1

  -- A list that is split at one element, which is read, replaced or removed.
  pub All-at :
      {xs : List A} (before after : List A) (x : A) → xs ≡ before ++ x ∷ after → All P xs → P x
  All-at before after x e h = (All-right before (x ∷ after) (rw e at h)).0

  pub All-replace :
      {xs : List A} (before after : List A) (x y : A)
      → xs ≡ before ++ x ∷ after
      → All P xs
      → P y
      → All P (before ++ y ∷ after)
  All-replace before after x y e h k =
      All-append before (y ∷ after) (All-left before (x ∷ after) (rw e at h))
        (k, (All-right before (x ∷ after) (rw e at h)).1)

  pub All-remove :
      {xs : List A} (before after : List A) (x : A)
      → xs ≡ before ++ x ∷ after
      → All P xs
      → All P (before ++ after)
  All-remove before after x e h =
      All-append before after (All-left before (x ∷ after) (rw e at h))
        (All-right before (x ∷ after) (rw e at h)).1
