-- ===== src/Loadgen/Scenarios/Assertion.antt =====
-- What `invariantCheck` asserts, whatever the order in which it goes through the tenants.
use Prim.Native.String.{compare as str_compare}
use text.Mathlib.Text.{is_le}
use ratelimiter.Base.{
  ℕ, ◌*◌, ◌<◌, ◌≡◌, refl, subst, ap, ◌∙◌, ◌↔◌, inl, inr, Bool-cases, String, List, [], ◌∷◌, map,
  Option, none, some, Bool, true, false, not, ◌&&◌, ltb, lt→ltb, arith, str_eq, eq_iff,
  if◌then◌else◌,
}
use ratelimiter.Base.Int.{ℤ, to_nat}
use ratelimiter.Base.Dict.{lookup}
use ratelimiter.Bucket.{token}
use ratelimiter.Config.{Config}
use ratelimiter.Loadgen.Driver.{TenantResult}
use ratelimiter.Loadgen.Scenarios.{
  insert_name, sort_names, tenants_sorted, bound_of, turn_of, turn, assert_turn, invariant_loop,
  invariant_check,
}

-- A turn that clears `ok`.
abbrev over : Option (ℕ × ℕ) → Bool
over none = false
over (some (tokens, bound)) = ltb bound tokens

abbrev some_over : (String → Option (ℕ × ℕ)) → List String → Bool
some_over test [] = false
some_over test (name ∷ names) = if over (test name) then true else some_over test names

cleared :
    (b ok rest : Bool)
    → ((if b then false else ok) && not rest) ≡ (ok && not (if b then true else rest))
cleared true true rest = refl
cleared true false rest = refl
cleared false ok rest = refl

assert_turn_lem :
    (name : String) (o : Option (ℕ × ℕ)) (state : Bool × List (String × ℕ × ℕ)) (rest : Bool)
    → ((assert_turn name o state).0 && not rest) ≡ (state.0 && not (if over o then true else rest))
unfolding assert_turn
assert_turn_lem name none state rest = refl
assert_turn_lem name (some (tokens, bound)) (ok, detail) rest = cleared (ltb bound tokens) ok rest

invariant_loop_lem :
    (test : String → Option (ℕ × ℕ)) (names : List String) (state : Bool × List (String × ℕ × ℕ))
    → (invariant_loop test names state).0 ≡ (state.0 && not (some_over test names))
unfolding invariant_loop
invariant_loop_lem test [] (true, detail) = refl
invariant_loop_lem test [] (false, detail) = refl
invariant_loop_lem test (name ∷ names) state =
    invariant_loop_lem test names (assert_turn name (test name) state)
    ∙ assert_turn_lem name (test name) state (some_over test names)

swap :
    (over_name over_s rest : Bool)
    → (if over_s then true else if over_name then true else rest)
      ≡ (if over_name then true else if over_s then true else rest)
swap true true rest = refl
swap true false rest = refl
swap false over_s rest = refl

-- The order does not matter.
some_over-insert_name :
    (test : String → Option (ℕ × ℕ)) (name : String) (names : List String)
    → some_over test (insert_name name names) ≡ some_over test (name ∷ names)
unfolding insert_name
some_over-insert_name test name [] = refl
some_over-insert_name test name (s ∷ ss) =
    let ih = some_over-insert_name test name ss in
    elim (Bool-cases (is_le (str_compare name s))) [
      | inl e ↦ rw e refl
      | inr e ↦ rw e (rw ih (swap (over (test name)) (over (test s)) (some_over test ss)))
    ]

some_over-sort_names :
    (test : String → Option (ℕ × ℕ)) (names : List String)
    → some_over test (sort_names names) ≡ some_over test names
unfolding sort_names
some_over-sort_names test [] = refl
some_over-sort_names test (s ∷ ss) =
    some_over-insert_name test s (sort_names ss)
    ∙ ap (λ b. if over (test s) then true else b) (some_over-sort_names test ss)

-- There is a configured tenant whose admitted tokens are above its bound.
pub record Exceeds (cfg : Config) (rs : List (String × TenantResult)) (dur workers restarts : ℕ)
    : Type 0 where
  pub name : String
  pub rate : ℤ
  pub result : TenantResult
  pub configured : lookup name cfg.tenants ≡ some rate
  pub measured : lookup name rs ≡ some result
  pub above : bound_of cfg (to_nat rate) dur workers restarts < token * result.admitted_tokens

-- A name that is over its bound is among those of the results.
listed :
    (test : String → Option (ℕ × ℕ)) (rs : List (String × TenantResult)) (name : String)
    (r : TenantResult)
    → lookup name rs ≡ some r
    → over (test name) ≡ true
    → some_over test (map (λ (name, r). name) rs) ≡ true
unfolding lookup
listed test [] name r e h = absurd (ground (arith, e))
listed test ((s, r') ∷ rs) name r e h = elim (Bool-cases (over (test s))) [
  | inl o ↦ rw o refl
  | inr o ↦ rw o (
      listed test rs name r
        (elim (Bool-cases (str_eq s name)) [
          | inl k ↦
              let same : s ≡ name = (eq_iff s name).0 k in
              let o' : over (test name) ≡ false = subst (λ t. over (test t) ≡ false) same o in
              absurd (ground (arith, h, o'))
          | inr k ↦ rw k at e
        ])
        h)
]

found :
    (test : String → Option (ℕ × ℕ)) (names : List String)
    → some_over test names ≡ true
    → (name : String) × (over (test name) ≡ true)
found test [] h = absurd (ground (arith, h))
found test (s ∷ ss) h = elim (Bool-cases (over (test s))) [
  | inl o ↦ (s, o)
  | inr o ↦ found test ss (rw o at h)
]

over-turn :
    (cfg : Config) (rs : List (String × TenantResult)) (dur workers restarts : ℕ) (name : String)
    → over (turn cfg rs dur workers restarts name) ≡ true
    → Exceeds cfg rs dur workers restarts
unfolding turn turn_of
over-turn cfg rs dur workers restarts name h =
    go (lookup name cfg.tenants) (lookup name rs) refl refl h
  where
    go :
        (rate : Option ℤ) (result : Option TenantResult)
        → lookup name cfg.tenants ≡ rate
        → lookup name rs ≡ result
        → over (turn_of cfg dur workers restarts rate result) ≡ true
        → Exceeds cfg rs dur workers restarts
    go none result e e' h = absurd (ground (arith, h))
    go (some rate) none e e' h = absurd (ground (arith, h))
    go (some rate) (some result) e e' h = record {
      name = name;
      rate = rate;
      result = result;
      configured = e;
      measured = e';
      above = ground (arith, h);
    }

Exceeds-over :
    {cfg : Config} {rs : List (String × TenantResult)} {dur workers restarts : ℕ}
    (x : Exceeds cfg rs dur workers restarts)
    → over (turn cfg rs dur workers restarts x.name) ≡ true
unfolding turn turn_of
Exceeds-over {cfg} {rs} {dur} {workers} {restarts} x =
    let opened : turn cfg rs dur workers restarts x.name
        ≡ turn_of cfg dur workers restarts (some x.rate) (some x.result) =
      ap (λ o. turn_of cfg dur workers restarts o (lookup x.name rs)) x.configured
      ∙ ap (λ o. turn_of cfg dur workers restarts (some x.rate) o) x.measured in
    ap over opened ∙ lt→ltb _ _ x.above

flipped : {ok b b' : Bool} → ok ≡ (true && not b) → b ≡ b' → ok ≡ false → b' ≡ true
flipped p q r = ground (arith, p, q, r)

-- `invariantCheck` fails exactly if there is a tenant, configured and measured, whose admitted tokens
-- exceed its bound, in whatever order the tenants are listed.
pub invariant_check_lem :
    (cfg : Config) (rs : List (String × TenantResult)) (dur workers restarts : ℕ)
    → ((invariant_check cfg rs dur workers restarts).0 ≡ false)
      ↔ Exceeds cfg rs dur workers restarts
unfolding invariant_check tenants_sorted
invariant_check_lem cfg rs dur workers restarts =
    let test = turn cfg rs dur workers restarts in
    let names = map (λ (name, r). name) rs in
    let value = invariant_loop_lem test (sort_names names) (true, []) in
    let all = some_over-sort_names test names in
    (
      λ h.
          let (name, over) = found test names (flipped value all h) in
          over-turn cfg rs dur workers restarts name over,
      λ x. rw value (rw (all, listed test rs x.name x.result x.measured (Exceeds-over x)) refl),
    )
