-- ===== src/Loadgen/Report/Table.antt =====
-- internal/loadgen/report.go, `renderTable`.
-- The parameters are the texts that `Sprintf` makes of an entry of Errors and that `Printf` makes of
-- a row, and the line with the names of the columns.
pub mod Complete
use ratelimiter.Base.{
  ℕ, String, List, [], ◌∷◌, map, Option, none, some, ◌==◌, if◌then◌else◌, length,
}
use ratelimiter.Base.Dict.{lookup}
use ratelimiter.Loadgen.Driver.{Failure, TenantResult, percentile}
use ratelimiter.Loadgen.Report.{join}
use ratelimiter.Loadgen.Scenarios.{sort_names, tenants_sorted}

infixl 5 ◌>>=◌
abbrev pub ◌>>=◌ {ℓ κ} : {A : Type ℓ} {B : Type κ} → Option A → (A → Option B) → Option B
none >>= f = none
some a >>= f = f a

-- What a row shows.
pub record Row : Type 0 where
  pub name : String
  pub sent : ℕ
  pub admitted : ℕ
  pub admitted_tokens : ℕ
  pub rejected : ℕ
  pub drops : ℕ
  pub p50 : ℕ
  pub p99 : ℕ
  pub errors : String

module _ (entry : Failure × ℕ → String) (header : String) (line : Row → String) where
  -- `errStr`
  unfoldable pub joined_errors : List (Failure × ℕ) → String
  unfolding sort_names
  joined_errors errors =
      let errs = sort_names (map entry errors) in if length errs == 0 then "-" else join " " errs

  -- One turn of the loop; `none` if `Percentile` indexes out of range.
  unfoldable pub row : String → TenantResult → Option String
  unfolding percentile joined_errors
  row name r = do
    p50 ← percentile r 50
    p99 ← percentile r 99
    some (
        line (record {
          name = name;
          sent = r.sent;
          admitted = r.admitted;
          admitted_tokens = r.admitted_tokens;
          rejected = r.rejected;
          drops = r.client_drops;
          p50 = p50;
          p99 = p99;
          errors = joined_errors r.errors;
        }))

  -- The loop over the names; a nil result of a name that is not there is a panic.
  unfoldable pub table_rows : List (String × TenantResult) → List String → Option (List String)
  unfolding row
  table_rows rs [] = some []
  table_rows rs (name ∷ names) = do
    r ← lookup name rs
    written ← row name r
    rest ← table_rows rs names
    some (written ∷ rest)

  -- `renderTable`: the empty line, the names of the columns, and the rows.
  unfoldable pub render_table : List (String × TenantResult) → Option (List String)
  unfolding table_rows tenants_sorted
  render_table rs = do rows ← table_rows rs (tenants_sorted rs); some ("" ∷ header ∷ rows)
