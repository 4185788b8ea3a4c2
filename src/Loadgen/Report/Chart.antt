-- ===== src/Loadgen/Report/Chart.antt =====
-- internal/loadgen/report.go, `renderChart`: one column per second, or per two seconds of a long run.
-- A line is the codes of its bytes, less its label. The levels that a column is compared with are
-- eighths and sixteenths of the peak, which the comparisons multiply out.
pub mod Bars
pub mod Axis
use ratelimiter.Base.{
  ℕ, zero, suc, ◌+◌, ◌-◌, ◌*◌, ◌/◌, String, List, [], ◌∷◌, map, Option, none, some, ltb, leb,
  if◌then◌else◌, length,
}

-- `colSec`
unfoldable pub col_sec : List ℕ → ℕ
col_sec series = if ltb 70 (length series) then 2 else 1

-- The loop at two seconds a column: means, and the last one alone if it has no other.
unfoldable pub halved : List ℕ → List ℕ
halved [] = []
halved (v ∷ []) = v ∷ []
halved (v ∷ w ∷ series) = (v + w) / 2 ∷ halved series

unfoldable pub columns : List ℕ → List ℕ
unfolding halved
columns series = if ltb 70 (length series) then halved series else series

-- `max`, which starts at 1.
unfoldable pub peak : ℕ → List ℕ → ℕ
peak max [] = max
peak max (v ∷ cols) = peak (if ltb max v then v else max) cols

abbrev pub height : ℕ
height = 8

-- The byte of a column in a row: full from the row's level on, and a dot from half a row below it on.
unfoldable pub cell : ℕ → ℕ → ℕ → ℕ
cell max row v =
    if leb (max * row) (height * v)
    then b'#'
    else if leb (max * (2 * row - 1)) (2 * height * v)
    then b'.'
    else b' '

-- The rows from `row` down to the first.
unfoldable pub rows : ℕ → ℕ → List ℕ → List (List ℕ)
unfolding cell
rows max zero cols = []
rows max (suc row) cols = map (cell max (suc row)) cols ∷ rows max row cols

-- `s[i] = c`, if there is such an index.
unfoldable pub put : ℕ → ℕ → List ℕ → List ℕ
put c i [] = []
put c zero (b ∷ bs) = c ∷ bs
put c (suc i) (b ∷ bs) = b ∷ put c i bs

unfoldable pub blank : ℕ → List ℕ
blank zero = []
blank (suc n) = b' ' ∷ blank n

-- The loop over the axis of `n` columns, from `s` on; `none` if the fuel runs out.
unfoldable pub mark_axis : ℕ → ℕ → (s per n : ℕ) → List ℕ → Option (List ℕ)
unfolding put
mark_axis zero c s per n bs = none
mark_axis (suc fuel) c s per n bs =
    let rest = mark_axis fuel c (s + 10) per n (put c (s / per) bs) in
    if leb (s * per / 10) (n * per / 10) then rest else some bs

unfoldable pub axis : ℕ → ℕ → Option (List ℕ)
unfolding mark_axis blank
axis per n = mark_axis (suc (n + 1)) b'|' 0 per n (blank n)

pub record Chart : Type 0 where
  pub title : String
  pub peak : ℕ
  pub per : ℕ
  pub rows : List (List ℕ)
  pub axis : Option (List ℕ)

-- `renderChart`: nothing for an empty series.
unfoldable pub render_chart : String → List ℕ → Option Chart
unfolding columns peak rows axis col_sec
render_chart title [] = none
render_chart title (v ∷ series) =
    let cols = columns (v ∷ series) in
    let max = peak 1 cols in
    some (record {
      title = title;
      peak = max;
      per = col_sec (v ∷ series);
      rows = rows max height cols;
      axis = axis (col_sec (v ∷ series)) (length cols);
    })
