-- ===== src/Loadgen/Report/Table/Complete.antt =====
-- `renderTable` writes one row for each tenant, in the order of `TenantsSorted`.
use ratelimiter.Base.{
  ℕ, ◌≡◌, refl, String, str_eq, List, [], ◌∷◌, map, some, inl, inr, All, Bool-cases, eq_iff, arith,
}
use Prim.Native.String.{compare as str_compare}
use text.Mathlib.Text.{is_le}
use ratelimiter.Base.Dict.{lookup}
use ratelimiter.Loadgen.Driver.{Failure, TenantResult}
use ratelimiter.Loadgen.Driver.Rank.{percentile_found}
use ratelimiter.Loadgen.Scenarios.{insert_name, sort_names, tenants_sorted}
use ratelimiter.Loadgen.Report.Table.{Row, row, table_rows, render_table}

All-insert_name :
    (P : String → Type 0) (name : String) (names : List String)
    → P name
    → All P names
    → All P (insert_name name names)
unfolding insert_name
All-insert_name P name [] p h = (p, tt)
All-insert_name P name (s ∷ ss) p (q, h) =
    let rest = All-insert_name P name ss p h in
    elim (Bool-cases (is_le (str_compare name s))) [
      | inl e ↦ rw e (p, (q, h))
      | inr e ↦ rw e (q, rest)
    ]

All-sort_names :
    (P : String → Type 0) (names : List String) → All P names → All P (sort_names names)
unfolding sort_names
All-sort_names P [] h = tt
All-sort_names P (s ∷ ss) (p, h) = All-insert_name P s (sort_names ss) p (All-sort_names P ss h)

-- The map has a result for the name.
abbrev IsListed : List (String × TenantResult) → String → Type 0
IsListed rs name = (r : TenantResult) × (lookup name rs ≡ some r)

IsListed-weaken :
    (entry : String × TenantResult) (rs : List (String × TenantResult)) (name : String)
    → IsListed rs name
    → IsListed (entry ∷ rs) name
unfolding lookup
IsListed-weaken (key, q) rs name (r, e) = elim (Bool-cases (str_eq key name)) [
  | inl k ↦ (q, rw k refl)
  | inr k ↦ (r, rw k e)
]

weaken-All :
    (entry : String × TenantResult) (rs : List (String × TenantResult)) (names : List String)
    → All (IsListed rs) names
    → All (IsListed (entry ∷ rs)) names
weaken-All entry rs [] h = tt
weaken-All entry rs (s ∷ ss) (p, h) = (IsListed-weaken entry rs s p, weaken-All entry rs ss h)

keys-All : (rs : List (String × TenantResult)) → All (IsListed rs) (map (λ (name, r). name) rs)
unfolding lookup
keys-All [] = tt
keys-All ((name, r) ∷ rs) = (
  (r, rw ((eq_iff name name).1 refl) refl),
  weaken-All (name, r) rs (map (λ (name, r). name) rs) (keys-All rs),
)

module _ (entry : Failure × ℕ → String) (header : String) (line : Row → String) where
  -- The rows that the names have: each is written for the result of its name.
  abbrev pub AreRows : List (String × TenantResult) → List String → List String → Type 0
  AreRows rs [] [] = Unit
  AreRows rs [] (w ∷ ws) = ⊥
  AreRows rs (name ∷ names) [] = ⊥
  AreRows rs (name ∷ names) (w ∷ ws) =
      ((r : TenantResult) × (lookup name rs ≡ some r) × (row entry header line name r ≡ some w))
      × AreRows rs names ws

  row_written :
      (name : String) (r : TenantResult) → (w : String) × (row entry header line name r ≡ some w)
  unfolding row
  row_written name r =
      let (p50, e50) = percentile_found r 50 (omega arith) in
      let (p99, e99) = percentile_found r 99 (omega arith) in rw (e50, e99) (_, refl)

  table_rows_written :
      (rs : List (String × TenantResult)) (names : List String)
      → All (IsListed rs) names
      → (rows : List String) × (table_rows entry header line rs names ≡ some rows)
        × AreRows rs names rows
  unfolding table_rows
  table_rows_written rs [] h = ([], refl, tt)
  table_rows_written rs (name ∷ names) ((r, e), h) =
      let (w, written) = row_written name r in
      let (rows, rest, are) = table_rows_written rs names h in
      (w ∷ rows, rw (e, written, rest) refl, ((r, e, written), are))

  -- `renderTable` does not panic: below the empty line and the names of the columns it writes one row
  -- for each tenant of the results, in the order of `TenantsSorted`.
  pub render_table_ends :
      (rs : List (String × TenantResult))
      → (rows : List String) × (render_table entry header line rs ≡ some ("" ∷ header ∷ rows))
        × AreRows rs (tenants_sorted rs) rows
  unfolding render_table tenants_sorted
  render_table_ends rs =
      let (rows, e, are) =
        table_rows_written rs (tenants_sorted rs)
          (All-sort_names (IsListed rs) (map (λ (name, r). name) rs) (keys-All rs)) in
      (rows, rw e refl, are)
