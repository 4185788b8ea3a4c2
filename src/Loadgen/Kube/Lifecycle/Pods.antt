-- ===== src/Loadgen/Kube/Lifecycle/Pods.antt =====
-- The pods that `pods` lists: the live ones, in the order of their names.
use Prim.Native.String.{compare as str_compare}
use text.Mathlib.Text.{is_le}
use ratelimiter.Base.{
  ℕ, suc, ◌≡◌, refl, inl, inr, Bool-cases, arith, List, [], ◌∷◌, some, Bool, true, false,
  if◌then◌else◌, length, get_elem?, All,
}
use ratelimiter.Loadgen.Kube.Objects.{Pod}
use ratelimiter.Loadgen.Kube.Lifecycle.{is_live, live_pods, insert_pod, sort_pods}

length-insert_pod : (p : Pod) (ps : List Pod) → length (insert_pod p ps) ≡ suc (length ps)
unfolding insert_pod
length-insert_pod p [] = refl
length-insert_pod p (q ∷ ps) = let ih = length-insert_pod p ps in ground arith

pub length-sort_pods : (ps : List Pod) → length (sort_pods ps) ≡ length ps
unfolding sort_pods
length-sort_pods [] = refl
length-sort_pods (p ∷ ps) = omega (arith, length-insert_pod p (sort_pods ps), length-sort_pods ps)

module _ (P : Pod → Type 0) where
  either : (b : Bool) (ps qs : List Pod) → All P ps → All P qs → All P (if b then ps else qs)
  either true ps qs h k = h
  either false ps qs h k = k

  All-insert_pod : (p : Pod) (ps : List Pod) → P p → All P ps → All P (insert_pod p ps)
  unfolding insert_pod
  All-insert_pod p [] h k = (h, tt)
  All-insert_pod p (q ∷ ps) h (kq, k) =
      either (is_le (str_compare p.name q.name)) (p ∷ q ∷ ps) (q ∷ insert_pod p ps) (h, (kq, k))
        (kq, All-insert_pod p ps h k)

  pub All-sort_pods : (ps : List Pod) → All P ps → All P (sort_pods ps)
  unfolding sort_pods
  All-sort_pods [] h = tt
  All-sort_pods (p ∷ ps) (hp, h) = All-insert_pod p (sort_pods ps) hp (All-sort_pods ps h)

-- A pod that counts, in the list.
pub record IsVictim (listed : List Pod) (p : Pod) : Type 0 where
  pub index : ℕ
  pub listed_at : get_elem? listed index ≡ some p
  pub live : is_live p ≡ true

later :
    (q : Pod) (listed : List Pod) (ps : List Pod)
    → All (IsVictim listed) ps
    → All (IsVictim (q ∷ listed)) ps
later q listed [] h = tt
later q listed (p ∷ ps) (v, h) =
    (record { index = suc v.index; listed_at = v.listed_at; live = v.live }, later q listed ps h)

pub live_pods-IsVictim : (ps : List Pod) → All (IsVictim ps) (live_pods ps)
unfolding live_pods
live_pods-IsVictim [] = tt
live_pods-IsVictim (p ∷ ps) = elim (Bool-cases (is_live p)) [
  | inl e ↦ rw e (
    record { index = 0; listed_at = refl; live = e },
    later p ps (live_pods ps) (live_pods-IsVictim ps),
  )
  | inr e ↦ rw e (later p ps (live_pods ps) (live_pods-IsVictim ps))
]
