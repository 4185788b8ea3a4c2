-- ===== src/Loadgen/Report/Chart/Axis.antt =====
-- The axis of the chart.
use ratelimiter.Base.{
  ℕ, zero, suc, ◌+◌, ◌*◌, ◌/◌, ◌%◌, ◌≤◌, ◌<◌, ◌≡◌, refl, ◌⊎◌, ◌↔◌, inl, inr, Bool-cases, arith,
  List, [], ◌∷◌, some, ◌==◌, false, leb, length, get_elem?, div_bounds, mul_mono, ◌≢◌, ◌∙◌,
}
use ratelimiter.Loadgen.Report.Chart.{put, blank, mark_axis, axis}

length-put : (c i : ℕ) (bs : List ℕ) → length (put c i bs) ≡ length bs
unfolding put
length-put c i [] = refl
length-put c zero (b ∷ bs) = refl
length-put c (suc i) (b ∷ bs) = omega (arith, length-put c i bs)

get_elem?-put_here : (c i : ℕ) (bs : List ℕ) → i < length bs → get_elem? (put c i bs) i ≡ some c
unfolding put
get_elem?-put_here c i [] h = absurd (omega (arith, h))
get_elem?-put_here c zero (b ∷ bs) h = refl
get_elem?-put_here c (suc i) (b ∷ bs) h = get_elem?-put_here c i bs (omega (arith, h))

get_elem?-put_ne : (c i j : ℕ) (bs : List ℕ) → i ≢ j → get_elem? (put c i bs) j ≡ get_elem? bs j
unfolding put
get_elem?-put_ne c i j [] h = refl
get_elem?-put_ne c zero zero (b ∷ bs) h = absurd (h refl)
get_elem?-put_ne c zero (suc j) (b ∷ bs) h = refl
get_elem?-put_ne c (suc i) zero (b ∷ bs) h = refl
get_elem?-put_ne c (suc i) (suc j) (b ∷ bs) h =
    get_elem?-put_ne c i j bs (λ e. h (omega (arith, e)))

length-blank : (n : ℕ) → length (blank n) ≡ n
unfolding blank
length-blank zero = refl
length-blank (suc n) = omega (arith, length-blank n)

blank_lem : (n i b : ℕ) → get_elem? (blank n) i ≡ some b → b ≡ b' '
unfolding blank
blank_lem zero i b e = absurd (ground (arith, e))
blank_lem (suc n) zero b e = ground (arith, e)
blank_lem (suc n) (suc i) b e = blank_lem n i b e

-- A column that the loop still marks when it has come to `10 * m`.
abbrev IsDue : (n m i : ℕ) → Type 0
IsDue n m i = (i % 5 ≡ 0) × (5 * m ≤ i) × (2 * i ≤ n)

-- The marks of the loop at two seconds a column, from `10 * m` on.
marks_lem :
    (fuel m n i : ℕ) (bs out : List ℕ)
    → mark_axis fuel b'|' (10 * m) 2 n bs ≡ some out
    → i < length bs
    → (get_elem? out i ≡ some b'|') ↔ ((get_elem? bs i ≡ some b'|') ⊎ IsDue n m i)
unfolding mark_axis
marks_lem zero m n i bs out e h = absurd (ground (arith, e))
marks_lem (suc fuel) m n i bs out e h = elim (Bool-cases (leb (10 * m * 2 / 10) (n * 2 / 10))) [
  | inl t ↦
      let in_time : 10 * m ≤ n = ground (arith, t) in
      let at : 10 * m / 2 ≡ 5 * m = omega arith in
      let next : 10 * m + 10 ≡ 10 * (m + 1) = omega arith in
      let later =
        marks_lem fuel (m + 1) n i (put b'|' (5 * m) bs) out (rw (← at, ← next) (rw t at e))
          (rw (length-put b'|' (5 * m) bs) h) in
      by_column in_time later
  | inr t ↦
      let late : n < 10 * m = ground (arith, t) in
      let same : bs ≡ out = ground (arith, rw t at e) in
      rw (← same)
        (λ k. inl k, λ k. elim k [ inl g ↦ g | inr (a, b, c) ↦ absurd (omega (arith, late, b, c)) ])
]
  where
    by_column :
        10 * m ≤ n
        → ((get_elem? out i ≡ some b'|')
            ↔ ((get_elem? (put b'|' (5 * m) bs) i ≡ some b'|') ⊎ IsDue n (m + 1) i))
        → (get_elem? out i ≡ some b'|') ↔ ((get_elem? bs i ≡ some b'|') ⊎ IsDue n m i)
    by_column in_time later = elim (Bool-cases (5 * m == i)) [
      | inl q ↦
          let here : 5 * m ≡ i = ground (arith, q) in
          let due : IsDue n m i =
            (omega (arith, here), omega (arith, here), omega (arith, here, in_time)) in
          let put_here : get_elem? (put b'|' (5 * m) bs) i ≡ some b'|' =
            rw here (get_elem?-put_here b'|' i bs h) in
          (λ k. inr due, λ k. later.1 (inl put_here))
      | inr q ↦
          let apart : 5 * m ≢ i = ground (arith, q) in
          let other = get_elem?-put_ne b'|' (5 * m) i bs apart in
          (
            λ k. elim (later.0 k) [
              | inl g ↦ inl (rw other at g)
              | inr (a, b, c) ↦ inr (a, omega (arith, b), c)
            ],
            λ k. later.1 (elim k [
              | inl g ↦ inl (other ∙ g)
              | inr (a, b, c) ↦ inr (a, omega (arith, a, b, apart), c)
            ]),
          )
    ]

ends_by : (s per n : ℕ) → 0 < per → n + 10 ≤ s → leb (s * per / 10) (n * per / 10) ≡ false
ends_by s per n h k =
    let more = mul_mono per (n + 10) s k in
    let a = div_bounds (s * per) 10 (omega arith) in
    let b = div_bounds (n * per) 10 (omega arith) in
    let above : n * per / 10 < s * per / 10 = omega (arith, more, a, b, h) in ground (arith, above)

-- The loop over the axis ends within its fuel.
mark_axis_ends :
    (fuel s per n : ℕ) (bs : List ℕ)
    → 0 < per
    → n + 10 ≤ s + 10 * fuel
    → (out : List ℕ) × (mark_axis (suc fuel) b'|' s per n bs ≡ some out)
unfolding mark_axis
mark_axis_ends zero s per n bs h k = rw (ends_by s per n h (omega (arith, k))) (bs, refl)
mark_axis_ends (suc fuel) s per n bs h k = elim (Bool-cases (leb (s * per / 10) (n * per / 10))) [
  | inl t ↦ rw t (mark_axis_ends fuel (s + 10) per n (put b'|' (s / per) bs) h (omega (arith, k)))
  | inr t ↦ rw t (bs, refl)
]

-- At two seconds a column the loop over the axis ends, and the columns that it has marked are
-- exactly every fifth one, from the first on, up to the middle of the chart and no further.
pub axis_lem :
    (n : ℕ)
    → (out : List ℕ) × (axis 2 n ≡ some out)
      × ((i : ℕ) → i < n → (get_elem? out i ≡ some b'|') ↔ ((i % 5 ≡ 0) × (2 * i ≤ n)))
unfolding axis
axis_lem n =
    let (out, e) = mark_axis_ends (n + 1) 0 2 n (blank n) (omega arith) (omega arith) in
    (
      out,
      e,
      λ i h.
          let marks = marks_lem (suc (n + 1)) 0 n i (blank n) out e (rw (length-blank n) h) in
          (
            λ k. elim (marks.0 k) [
              | inl g ↦ absurd (omega (arith, blank_lem n i b'|' g))
              | inr (a, b, c) ↦ (a, c)
            ],
            λ (a, c). marks.1 (inr (a, omega arith, c)),
          ),
    )
